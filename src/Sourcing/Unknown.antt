-- ===== src/Sourcing/Unknown.antt =====
-- What of the ingestion can still find a person who is erased: the lookups by identity, name and
-- email of backend/app/services/ingestion.py.
use text.Mathlib.TextEquality.{eq_iff}
use mathlib.Core.Path.{subst}
use dolphin_vc.Base.{
  ◌⊎◌, ℕ, ◌≡◌, ◌≢◌, str_eq, ap, sym, ◌∙◌, inl, inr, String, Bool, true, false, Option, some, List,
  [], ◌∷◌, ◌&&◌, if◌then◌else◌, leb, is_none, arith, find_where, select_where, update_where,
  any_where, find_where-holds, Option-cases, Bool-cases, All,
}
use dolphin_vc.Errors.{ok}
use dolphin_vc.Session.{request}
use dolphin_vc.Records.{Db, Person}
use dolphin_vc.Sourcing.Names.{Tools}
use dolphin_vc.Sourcing.Founders.{order_by, place_by}
use dolphin_vc.Sourcing.People.{
  person_is, same_text, has_identity, lookup_text, named, or_named, person_by_identity,
}
use dolphin_vc.Sourcing.Applicants.{has_email, person_by_email}
use dolphin_vc.Sourcing.Erasure.{erased_name, erased, gdpr_erase}

-- The rows of the table come back from a query with an order.
module _ (P : Person → Type 0) where
  All-select_where : (q : Person → Bool) (l : List Person) → All P l → All P (select_where q l)
  unfolding select_where
  All-select_where q [] h = tt
  All-select_where q (x ∷ xs) h = elim (Bool-cases (q x)) [
    | inl hit ↦ rw hit (h.0, All-select_where q xs h.1)
    | inr miss ↦ rw miss (All-select_where q xs h.1)
  ]

  All-if : (b : Bool) (l r : List Person) → All P l → All P r → All P (if b then l else r)
  All-if true l r hl hr = hl
  All-if false l r hl hr = hr

  All-place_by :
      (column : Person → ℕ) (x : Person) (l : List Person)
      → P x
      → All P l
      → All P (place_by column x l)
  All-place_by column x [] hx h = (hx, tt)
  All-place_by column x (a ∷ rows) hx h =
      All-if (leb (column x) (column a)) (x ∷ a ∷ rows) (a ∷ place_by column x rows) (hx, h)
        (h.0, All-place_by column x rows hx h.1)

  All-order_by : (column : Person → ℕ) (l : List Person) → All P l → All P (order_by column l)
  unfolding order_by
  All-order_by column [] h = tt
  All-order_by column (x ∷ rows) h =
      All-place_by column x (order_by column rows) h.0 (All-order_by column rows h.1)

  All-find_where :
      (q : Person → Bool) (l : List Person) (x : Person) → All P l → find_where q l ≡ some x → P x
  unfolding find_where
  All-find_where q [] x h found = absurd (ground arith)
  All-find_where q (y ∷ ys) x h found = elim (Bool-cases (q y)) [
    | inl hit ↦ let same : y ≡ x = ground arith in subst P same h.0
    | inr miss ↦ All-find_where q ys x h.1 (ground arith)
  ]

-- What no one can be found by, once erased.
IsErased : (ℕ → String) → ℕ → Person → Type 0
IsErased show id p =
    p.id ≡ id
    → (p.normalized_name ≡ erased_name show id)
      × (p.emails ≡ [])
      × (p.links ≡ [])
      × (p.identities ≡ [])

update_where-IsErased :
    (show : ℕ → String) (id : ℕ) (l : List Person)
    → All (IsErased show id) (update_where (person_is id) (erased show) l)
unfolding update_where IsErased
update_where-IsErased show id [] = tt
update_where-IsErased show id (x ∷ xs) = (λ same. ground arith, update_where-IsErased show id xs)

gdpr_erase_lem :
    (show : ℕ → String) (id : ℕ) (db db' : Db)
    → request (gdpr_erase show id) db ≡ (ok tt, db')
    → db'.persons ≡ update_where (person_is id) (erased show) db.persons
unfolding gdpr_erase
gdpr_erase_lem show id db db' e = elim (Option-cases (find_where (person_is id) db.persons)) [
  | inl missing ↦ absurd (ground arith)
  | inr (p, found) ↦ ground (arith, find_where-holds (person_is id) db.persons p found)
]

module _ (tools : Tools) (show : ℕ → String) (id : ℕ) (persons : List Person)
    (all : All (IsErased show id) persons) (p : Person) where
  -- The lookups of the ingestion among rows that are erased.
  unidentified :
      (provider value : String)
      → same_text tools "" value ≡ false
      → find_where (has_identity tools provider value) persons ≡ some p
      → p.id ≢ id
  unfolding IsErased lookup_text
  unidentified provider value told found same =
      let (name, emails, links, identities) =
        All-find_where (IsErased show id) (has_identity tools provider value) persons p all found
          same in
      let hit : has_identity tools provider value p ≡ true =
        find_where-holds (has_identity tools provider value) persons p found in
      let by_link : same_text tools (lookup_text provider p.links) value ≡ false =
        ap (λ l. same_text tools (lookup_text provider l) value) links ∙ told in
      let by_identity : same_text tools (lookup_text provider p.identities) value ≡ false =
        ap (λ l. same_text tools (lookup_text provider l) value) identities ∙ told in
      ground (arith, hit, by_link, by_identity)

  unnamed :
      (normalized : String)
      → normalized ≢ erased_name show id
      → find_where (named tools normalized) persons ≡ some p
      → p.id ≢ id
  unfolding IsErased
  unnamed normalized other found same =
      let (name, emails, links, identities) =
        All-find_where (IsErased show id) (named tools normalized) persons p all found same in
      let hit = find_where-holds (named tools normalized) persons p found in
      let called : str_eq p.normalized_name normalized ≡ true = ground (arith, hit) in
      other (sym ((eq_iff p.normalized_name normalized).0 called) ∙ name)

  unmailed :
      (email : String)
      → find_where (λ (q : Person). is_none q.merged_into_id && has_email tools email q) persons
        ≡ some p
      → p.id ≢ id
  unfolding IsErased any_where
  unmailed email found same =
      let (name, emails, links, identities) =
        All-find_where (IsErased show id)
          (λ (q : Person). is_none q.merged_into_id && has_email tools email q) persons p all found
          same in
      let hit =
        find_where-holds (λ (q : Person). is_none q.merged_into_id && has_email tools email q)
          persons p found in
      let mailed : has_email tools email p ≡ true = ground (arith, hit) in
      let silent : has_email tools email p ≡ false =
        ap (any_where (λ value. str_eq (tools.casefold value) email)) emails in
      ground (arith, mailed, silent)

-- Who is erased is unknown to what comes later: after an erasure that succeeds, the lookups by
-- which the ingestion knows a person again do not find the row of that id, neither by an email, nor
-- by an identity whose value does not fold to what the empty text folds to and is not normalized
-- to the name that the erasure leaves.
pub erased_is_unknown :
    (tools : Tools) (show : ℕ → String) (id : ℕ) (db db' : Db)
    → request (gdpr_erase show id) db ≡ (ok tt, db')
    → (provider value email : String) → same_text tools "" value ≡ false
    → tools.normalize_name value ≢ erased_name show id
    → (p : Person)
    → (person_by_identity tools provider value db' ≡ some p)
      ⊎ (person_by_email tools (some email) db' ≡ some p)
    → p.id ≢ id
unfolding person_by_identity
erased_is_unknown tools show id db db' done provider value email told other p by =
    let all : All (IsErased show id) db'.persons =
      subst (All (IsErased show id)) (sym (gdpr_erase_lem show id db db' done))
        (update_where-IsErased show id db.persons) in
    let rows =
      order_by (λ (q : Person). q.created_at)
        (select_where (λ (q : Person). is_none q.merged_into_id) db'.persons) in
    let all_rows : All (IsErased show id) rows =
      All-order_by (IsErased show id) (λ (q : Person). q.created_at)
        (select_where (λ (q : Person). is_none q.merged_into_id) db'.persons)
        (All-select_where (IsErased show id) (λ (q : Person). is_none q.merged_into_id) db'.persons
          all) in
    let known = λ (r : Option Person). or_named tools r (tools.normalize_name value) db' in
    elim by [
      | inr mailed ↦ unmailed tools show id db'.persons all p email mailed
      | inl found ↦ elim (Option-cases (find_where (has_identity tools provider value) rows)) [
        | inr (q, hit) ↦
            unidentified tools show id rows all_rows p provider value told
              (hit ∙ sym (ap known hit) ∙ found)
        | inl missing ↦
            unnamed tools show id db'.persons all p (tools.normalize_name value) other
              (let named_so = sym (ap known missing) ∙ found in ground (arith, named_so))
      ]
    ]
