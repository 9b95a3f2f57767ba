-- ===== src/Memo/Editing.antt =====
-- What an edit of a memo does to the versions of the memos (backend/app/routers/memos.py).
use dolphin_vc.Base.{any_where}
use dolphin_vc.Memo.Handlers.{has_version}
use dolphin_vc.Base.{
  inr, inl, ℕ, ◌+◌, ◌≡◌, Option, some, List, map, opt_is, arith, find_where, update_where,
  find_where-holds, Option-cases, Bool-cases,
}
use dolphin_vc.Errors.{ok}
use dolphin_vc.Session.{request}
use dolphin_vc.Auth.Model.{Principal}
use dolphin_vc.Records.{Memo, Section, Db}
use dolphin_vc.Memo.Handlers.{owned_memo, memo_is, edited, with_sections, patch_memo}

module _ (editor : Principal) (id : ℕ) (body : List Section) (if_match : Option ℕ) (now : ℕ)
    (db db' : Db) (m' : Memo) where
  abbrev new_sections : List Section
  new_sections = map (edited editor.user_id now) body

  -- What an edit that succeeds has found and written.
  pub patch_memo_lem :
      request (patch_memo editor id body if_match now) db ≡ (ok m', db')
      → (m : Memo) × (find_where (owned_memo editor.org_id id) db.memos ≡ some m)
        × (m.id ≡ id)
        × (m' ≡ with_sections new_sections m)
        × (db'
            ≡ record db { memos = update_where (memo_is id) (with_sections new_sections) db.memos })
  unfolding patch_memo
  patch_memo_lem e = elim (Option-cases (find_where (owned_memo editor.org_id id) db.memos)) [
    | inl missing ↦ absurd (ground arith)
    | inr (m, found) ↦ elim (Bool-cases (opt_is if_match m.version)) [
      | inr stale ↦ absurd (ground arith)
      | inl current ↦
          elim (Bool-cases (any_where (has_version m.opportunity_id (m.version + 1)) db.memos)) [
            | inl clash ↦ absurd (ground arith)
            | inr free ↦ (
              m,
              found,
              ground (arith, find_where-holds (owned_memo editor.org_id id) db.memos m found),
              ground arith,
              ground (arith, find_where-holds (owned_memo editor.org_id id) db.memos m found),
            )
          ]
    ]
  ]
