-- ===== src/Memo/Sections.antt =====
-- The sections of a memo, and which claims they take
-- (backend/app/services/memo.py).
use dolphin_vc.Base.{
  All, ℕ, ◌≡◌, refl, ◌∙◌, ap, inl, inr, String, Bool, true, false, List, [], ◌∷◌, ◌++◌, map, arith,
  any_where, select_where, Bool-cases, if◌then◌else◌,
}
use dolphin_vc.Types.{ClaimCategory, DecisionKind}
use dolphin_vc.Records.{Claim, Section, Gap}
use dolphin_vc.Memo.Compose.{
  Required, required_sections, MemoDraft, in_categories, relevant, gap_of, compose_sections,
  compose_memo,
}

abbrev pub is_empty {ℓ} : {A : Type ℓ} → List A → Bool
is_empty [] = true
is_empty (_ ∷ _) = false

-- A required section of which the claims have none.
abbrev pub lacks : List Claim → Required → Bool
lacks claims r = is_empty (relevant r claims)

abbrev pub keys : List Section → List String
keys = map (λ s. s.key)

gap_fields :
    (r : Required) (claims : List Claim) (rest : List Gap)
    → map (λ (g : Gap). g.field) (gap_of r.key claims ++ rest) ≡ (
        if is_empty claims
        then r.key ∷ map (λ (g : Gap). g.field) rest
        else map (λ (g : Gap). g.field) rest)
gap_fields r [] rest = refl
gap_fields r (c ∷ claims) rest = refl

pub keys-insert : (l : List Section) (x : Section) → keys (l ++ x ∷ []) ≡ keys l ++ x.key ∷ []
keys-insert [] x = refl
keys-insert (y ∷ l) x = ap (◌∷◌ y.key) (keys-insert l x)

-- A claim of a category that some required section takes.
abbrev is_taken : ClaimCategory → Bool
is_taken ClaimCategory.funding = false
is_taken ClaimCategory.legal = false
is_taken ClaimCategory.other = false
is_taken _ = true

abbrev pub taken : List Claim → List Claim
taken = select_where (λ c. is_taken c.category)

-- A section takes claims of those categories only.
abbrev IsCovered : Required → Type 0
IsCovered r = (c : Claim) → in_categories r.categories c ≡ true → is_taken c.category ≡ true

select-taken :
    (r : Required) (claims : List Claim)
    → IsCovered r
    → relevant r (taken claims) ≡ relevant r claims
unfolding select_where
select-taken r [] h = refl
select-taken r (c ∷ claims) h = elim (Bool-cases (is_taken c.category)) [
  | inl e ↦ rw e (elim (Bool-cases (in_categories r.categories c)) [
    | inl m ↦ rw m (ap (◌∷◌ c) (select-taken r claims h))
    | inr m ↦ rw m (select-taken r claims h)
  ])
  | inr e ↦ elim (Bool-cases (in_categories r.categories c)) [
    | inl m ↦ absurd (ground (arith, h c m, e))
    | inr m ↦ rw (e, m) (select-taken r claims h)
  ]
]

required-IsCovered : All IsCovered required_sections
unfolding required_sections any_where
required-IsCovered = (
  λ c m. ground arith,
  (λ c m. ground arith, (λ c m. ground arith, (λ c m. ground arith, (λ c m. ground arith, tt)))),
)

module _ (show_id fixed_two : ℕ → String) (title : String → String) (claims : List Claim) where
  pub sections-keys :
      (rs : List Required)
      → keys (compose_sections show_id fixed_two title rs claims).0 ≡ map (λ r. r.key) rs
  unfolding compose_sections
  sections-keys [] = refl
  sections-keys (r ∷ rs) = ap (◌∷◌ r.key) (sections-keys rs)

  pub sections-gaps :
      (rs : List Required)
      → map (λ g. g.field) (compose_sections show_id fixed_two title rs claims).1
        ≡ map (λ r. r.key) (select_where (lacks claims) rs)
  unfolding compose_sections select_where
  sections-gaps [] = refl
  sections-gaps (r ∷ rs) =
      gap_fields r (relevant r claims) (compose_sections show_id fixed_two title rs claims).1
      ∙ ap (λ (rest : List String). if lacks claims r then r.key ∷ rest else rest)
          (sections-gaps rs)
      ∙ elim (Bool-cases (lacks claims r)) [ inl e ↦ rw e refl | inr e ↦ rw e refl ]

  module _ (decision : DecisionKind) (rationale : String) where
    abbrev pub draft : MemoDraft
    draft = compose_memo show_id fixed_two title claims decision rationale

    compose_taken :
        (rs : List Required)
        → All IsCovered rs
        → compose_sections show_id fixed_two title rs (taken claims)
          ≡ compose_sections show_id fixed_two title rs claims
    unfolding compose_sections
    compose_taken [] h = refl
    compose_taken (r ∷ rs) h = rw (select-taken r claims h.0, compose_taken rs h.1) refl

    -- Claims on funding, on legal matters and of the category `other` leave no trace in a memo: it
    -- is the memo of the remaining claims.
    untaken_claims : compose_memo show_id fixed_two title (taken claims) decision rationale ≡ draft
    unfolding compose_memo
    untaken_claims = rw (compose_taken required_sections required-IsCovered) refl
