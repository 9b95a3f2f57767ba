-- ===== src/Theses/Default.antt =====
-- The default thesis of an organisation (backend/app/routers/theses.py).

use dolphin_vc.Base.{
  ℕ, ◌≤◌, ◌≡◌, ◌⊎◌, refl, inl, inr, true, false, Option, some, List, arith, opt_is, bit, change,
  find_where, count_where, update_where, Option-cases, Bool-cases, find_where-holds,
  count_where-update_where-eq, ◌∙◌,
}
use dolphin_vc.Session.{request}
use dolphin_vc.Records.{Thesis, Db}
use dolphin_vc.Theses.Ordered.{
  default_of, cleared, IsOrdered, update-IsOrdered, insert-IsOrdered, promoted-IsOrdered,
  find_where-cleared, cleared_none, cleared-IsOrdered,
}
use dolphin_vc.Theses.Commands.{
  ThesisCreate, ThesisUpdate, new_thesis, thesis_of, thesis_is, owned_thesis, with_default, revised,
  deleted, create_thesis, update_thesis, delete_thesis, set_default,
}

-- The requests that change theses.
pub data ThesisRequest : Type 0 where
  creation : ThesisCreate → ℕ → ThesisRequest
  revision : ℕ → ThesisUpdate → Option ℕ → ThesisRequest
  deletion : ℕ → ℕ → ThesisRequest
  promotion : ℕ → ThesisRequest

-- The database behind a request of an organisation.
unfoldable pub after_request : ℕ → ThesisRequest → Db → Db
unfolding create_thesis update_thesis delete_thesis set_default
after_request org (creation body id) db = (request (create_thesis body org id) db).1
after_request org (revision id body if_match) db =
    (request (update_thesis org id body if_match) db).1
after_request org (deletion id now) db = (request (delete_thesis org id now) db).1
after_request org (promotion id) db = (request (set_default org id) db).1

-- The id that a creation draws is no thesis's.
abbrev IsFresh : List Thesis → ThesisRequest → Type 0
IsFresh l (creation body id) = count_where (thesis_is id) l ≡ 0
IsFresh l _ = Unit

revised-id : (body : ThesisUpdate) (t : Thesis) → (revised body t).id ≡ t.id
unfolding revised
revised-id body t = refl

revised-default :
    (id : ℕ) (body : ThesisUpdate) (org : ℕ) (t : Thesis)
    → bit (default_of org (change (thesis_is id) (revised body) t)) ≤ bit (default_of org t)
unfolding revised
revised-default id body org t = ground arith

created-IsOrdered :
    (org id : ℕ) (body : ThesisCreate) (db : Db)
    → count_where (thesis_is id) db.theses ≡ 0
    → IsOrdered db.theses
    → IsOrdered (after_request org (creation body id) db).theses
unfolding after_request
created-IsOrdered org id body db fresh inv = elim (Bool-cases body.is_default) [
  | inl chosen ↦ rw chosen (
      insert-IsOrdered (cleared org db.theses)
        (record (new_thesis body org id) { is_default = true })
        (count_where-update_where-eq (thesis_is id) (thesis_of org) (with_default false) db.theses
            (λ t. ground arith)
          ∙ fresh)
        (λ e. cleared_none org db.theses) (cleared-IsOrdered org db.theses inv))
  | inr plain ↦ rw plain (
      insert-IsOrdered db.theses (record (new_thesis body org id) { is_default = false }) fresh
        (λ e. absurd (ground arith)) inv)
]

module _ (org id : ℕ) (db : Db) where
  -- A request on one thesis changes nothing, or finds the thesis and changes its row.
  after_revision :
      (body : ThesisUpdate) (if_match : Option ℕ)
      → ((after_request org (revision id body if_match) db).theses ≡ db.theses)
        ⊎ ((t : Thesis) × ((after_request org (revision id body if_match) db).theses
              ≡ update_where (thesis_is t.id) (revised body) db.theses))
  unfolding after_request
  after_revision body if_match = elim (Option-cases (find_where (owned_thesis org id) db.theses)) [
    | inl missing ↦ inl (ground arith)
    | inr (t, found) ↦ elim (Bool-cases (opt_is if_match t.version)) [
      | inl told ↦ inr (t, ground arith)
      | inr stale ↦ inl (ground arith)
    ]
  ]

  after_deletion :
      (now : ℕ)
      → ((after_request org (deletion id now) db).theses ≡ db.theses)
        ⊎ ((t : Thesis) × ((after_request org (deletion id now) db).theses
              ≡ update_where (thesis_is t.id) (deleted now) db.theses))
  unfolding after_request
  after_deletion now = elim (Option-cases (find_where (owned_thesis org id) db.theses)) [
    | inl missing ↦ inl (ground arith)
    | inr (t, found) ↦ inr (t, ground arith)
  ]

  after_promotion :
      ((after_request org (promotion id) db).theses ≡ db.theses)
      ⊎ ((t : Thesis) × (find_where (owned_thesis org id) db.theses ≡ some t)
          × ((after_request org (promotion id) db).theses
              ≡ update_where (thesis_is id) (with_default true) (cleared org db.theses)))
  unfolding after_request
  after_promotion = elim (Option-cases (find_where (owned_thesis org id) db.theses)) [
    | inl missing ↦ inl (ground arith)
    | inr (t, found) ↦
        let same : t.id ≡ id =
          ground (arith, find_where-holds (owned_thesis org id) db.theses t found) in
        inr (t, found, ground (arith, same))
  ]

-- Each request of any organisation on theses, whether it succeeds or is refused, leaves no two
-- theses with one id and no organisation with two default theses, if that was so before and the id
-- that a creation draws was no thesis's.
pub after_request-IsOrdered :
    (org : ℕ) (r : ThesisRequest) (db : Db)
    → IsFresh db.theses r
    → IsOrdered db.theses
    → IsOrdered (after_request org r db).theses
after_request-IsOrdered org (creation body id) db fresh inv =
    created-IsOrdered org id body db fresh inv
after_request-IsOrdered org (revision id body if_match) db fresh inv =
    elim (after_revision org id db body if_match) [
      | inl same ↦ rw same inv
      | inr (t, e) ↦ rw e (
          update-IsOrdered (thesis_is t.id) (revised body) db.theses (revised-id body)
            (revised-default t.id body) inv)
    ]
after_request-IsOrdered org (deletion id now) db fresh inv = elim (after_deletion org id db now) [
  | inl same ↦ rw same inv
  | inr (t, e) ↦ rw e (
      update-IsOrdered (thesis_is t.id) (deleted now) db.theses (λ x. refl) (λ o x. ground arith)
        inv)
]
after_request-IsOrdered org (promotion id) db fresh inv = elim (after_promotion org id db) [
  | inl same ↦ rw same inv
  | inr (t, found, e) ↦ rw e (
      promoted-IsOrdered org id (cleared org db.theses)
        (change (thesis_of org) (with_default false) t)
        (find_where-cleared org id db.theses t found) (cleared_none org db.theses)
        (cleared-IsOrdered org db.theses inv))
]
