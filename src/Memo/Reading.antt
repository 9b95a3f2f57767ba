-- ===== src/Memo/Reading.antt =====
-- What is read of a memo that has been edited (backend/app/routers/memos.py).
use dolphin_vc.Base.{
  inl, inr, ◌&&◌, ℕ, ◌+◌, ◌≤◌, ◌≡◌, ◌∙◌, sym, ap, refl, String, Bool, true, Option, none, some,
  List, [], ◌∷◌, map, ltb, arith, ==_refl, find_where, select_where, update_where, count_where,
  find_where_unique, update_where-zero, found→count_where, find_where-some→count_where,
  Option-cases, Bool-cases,
}
use dolphin_vc.Errors.{ok}
use dolphin_vc.Session.{request, Tx}
use dolphin_vc.Auth.Model.{Principal}
use dolphin_vc.Records.{Memo, Section, Opportunity, Db}
use dolphin_vc.Opportunities.Commands.{find_opportunity}
use dolphin_vc.Memo.Handlers.{
  owned_memo, memo_is, edited, with_sections, patch_memo, newest, of_opportunity, VersionNumber,
  get_opportunity_memo,
}
use dolphin_vc.Memo.Editing.{patch_memo_lem}

-- No memo that the test selects has a higher version than the newest.
Below : (Memo → Bool) → ℕ → List Memo → Type 0
Below sel n l = count_where (λ m. sel m && ltb n m.version) l ≡ 0

module _ (sel : Memo → Bool) where
  newest-none : (l : List Memo) (n : ℕ) → newest (select_where sel l) ≡ none → Below sel n l
  unfolding newest select_where count_where Below
  newest-none [] n e = refl
  newest-none (x ∷ xs) n e = elim (Bool-cases (sel x)) [
    | inr miss ↦ ground (arith, newest-none xs n)
    | inl hit ↦ elim (Option-cases (newest (select_where sel xs))) [
      | inl nothing ↦ absurd (ground arith)
      | inr (k, at) ↦ absurd (ground arith)
    ]
  ]

  newest-Below :
      (l : List Memo) (m : Memo) (n : ℕ)
      → newest (select_where sel l) ≡ some m
      → m.version ≤ n
      → Below sel n l
  unfolding newest select_where count_where Below
  newest-Below [] m n e le = ground arith
  newest-Below (x ∷ xs) m n e le = elim (Bool-cases (sel x)) [
    | inr miss ↦ ground (arith, newest-Below xs m n)
    | inl hit ↦ elim (Option-cases (newest (select_where sel xs))) [
      | inl nothing ↦ ground (arith, newest-none xs n nothing)
      | inr (k, at) ↦ ground (arith, newest-Below xs k n at)
    ]
  ]

  -- The newest is selected, and it is the row that its id finds.
  newest-found :
      (l : List Memo) (m : Memo)
      → count_where (memo_is m.id) l ≤ 1
      → newest (select_where sel l) ≡ some m
      → (sel m ≡ true) × (find_where (memo_is m.id) l ≡ some m)
  unfolding newest select_where count_where find_where
  newest-found [] m one e = ground arith
  newest-found (x ∷ xs) m one e = elim (Bool-cases (sel x)) [
    | inr miss ↦ ground (arith, newest-found xs m, find_where-some→count_where (memo_is m.id) xs m)
    | inl hit ↦ elim (Option-cases (newest (select_where sel xs))) [
      | inl nothing ↦ ground arith
      | inr (k, at) ↦ elim (Bool-cases (ltb x.version k.version)) [
        | inr first ↦ ground arith
        | inl later ↦
            ground (arith, newest-found xs m, find_where-some→count_where (memo_is m.id) xs m)
      ]
    ]
  ]

  newest-le :
      (l : List Memo) (k : Memo) (n : ℕ)
      → newest (select_where sel l) ≡ some k
      → Below sel n l
      → k.version ≤ n
  unfolding newest select_where count_where Below
  newest-le [] k n e below = ground arith
  newest-le (x ∷ xs) k n e below = elim (Bool-cases (sel x)) [
    | inr miss ↦ ground (arith, newest-le xs k n)
    | inl hit ↦ elim (Option-cases (newest (select_where sel xs))) [
      | inl nothing ↦ ground arith
      | inr (j, at) ↦ ground (arith, newest-le xs j n at)
    ]
  ]

  -- A row above all others, where the update puts the one row that it changes, is the newest.
  newest-update_where :
      (q s : Memo → Bool) (g : Memo → Memo) (l : List Memo) (a : Memo)
      → count_where q l ≤ 1
      → find_where s l ≡ some a
      → q a ≡ true
      → sel (g a) ≡ true
      → a.version + 1 ≤ (g a).version
      → Below sel a.version l
      → newest (select_where sel (update_where q g l)) ≡ some (g a)
  unfolding newest select_where count_where find_where update_where Below
  newest-update_where q s g [] a one found qa sa above below = ground arith
  newest-update_where q s g (x ∷ xs) a one found qa sa above below = elim (Bool-cases (s x)) [
    | inl hit ↦ elim (Option-cases (newest (select_where sel xs))) [
      | inl nothing ↦ ground (arith, update_where-zero q g xs)
      | inr (k, at) ↦ ground (arith, update_where-zero q g xs, newest-le xs k a.version at)
    ]
    | inr miss ↦ ground (arith, newest-update_where q s g xs a, found→count_where q s xs a)
  ]

module _ (int : String → Option VersionNumber) (org_id opportunity : ℕ) where
  abbrev read : Tx Db Memo
  read = get_opportunity_memo int org_id opportunity "latest"

  read_lem :
      (db : Db) (m : Memo)
      → (request read db).0 ≡ ok m
      → (o : Opportunity) × (find_opportunity org_id opportunity db ≡ some o)
        × (newest (select_where (of_opportunity org_id opportunity) db.memos) ≡ some m)
  unfolding get_opportunity_memo
  read_lem db m e = elim (Option-cases (find_opportunity org_id opportunity db)) [
    | inl missing ↦ absurd (ground arith)
    | inr (o, found) ↦
        elim (Option-cases (newest (select_where (of_opportunity org_id opportunity) db.memos))) [
          | inl nothing ↦ absurd (ground arith)
          | inr (k, at) ↦ (o, found, ground arith)
        ]
  ]

  read_back :
      (db : Db) (m : Memo) (o : Opportunity)
      → find_opportunity org_id opportunity db ≡ some o
      → newest (select_where (of_opportunity org_id opportunity) db.memos) ≡ some m
      → (request read db).0 ≡ ok m
  unfolding get_opportunity_memo
  read_back db m o found at = ground arith

-- What an editor writes to the latest memo of an opportunity is read back: after an edit of it that
-- succeeds, the latest memo is the one that the edit answers with, one version up, and its
-- sections are those that were sent, marked with the editor and the time. It is assumed that no
-- other memo has its id.
pub get_opportunity_memo-patch_memo :
    (int : String → Option VersionNumber) (editor : Principal) (opportunity : ℕ) (m m' : Memo)
    (body : List Section) (if_match : Option ℕ) (now : ℕ) (db db' : Db)
    → (request (get_opportunity_memo int editor.org_id opportunity "latest") db).0 ≡ ok m
    → request (patch_memo editor m.id body if_match now) db ≡ (ok m', db')
    → count_where (memo_is m.id) db.memos ≤ 1
    → ((request (get_opportunity_memo int editor.org_id opportunity "latest") db').0 ≡ ok m')
      × (m'.sections ≡ map (edited editor.user_id now) body)
      × (m'.version ≡ m.version + 1)
get_opportunity_memo-patch_memo int editor opportunity m m' body if_match now db db' got done one =
    let (o, there, latest) = read_lem int editor.org_id opportunity db m got in
    let (k, found, same, is, written) =
      patch_memo_lem editor m.id body if_match now db db' m' done in
    let sel = of_opportunity editor.org_id opportunity in
    let (selected, by_id) = newest-found sel db.memos m one latest in
    let k_is : k ≡ m =
      find_where_unique (memo_is m.id) (owned_memo editor.org_id m.id) (memo_is m.id) db.memos k m
        one found (ground (arith, same)) by_id (==_refl m.id) in
    let g = with_sections (map (edited editor.user_id now) body) in
    let m'_is : m' ≡ g m = is ∙ ap g k_is in
    let now_latest : newest (select_where sel (update_where (memo_is m.id) g db.memos))
        ≡ some (g m) =
      newest-update_where sel (memo_is m.id) (memo_is m.id) g db.memos m one by_id (==_refl m.id)
        selected (omega arith) (newest-Below sel db.memos m m.version latest (omega arith)) in
    (
      read_back int editor.org_id opportunity db' m' o
          (ap (find_opportunity editor.org_id opportunity) written ∙ there)
          (ap (λ d. newest (select_where sel d.memos)) written ∙ now_latest ∙ ap some (sym m'_is)),
      ap (λ x. x.sections) m'_is,
      ap (λ x. x.version) m'_is,
    )
