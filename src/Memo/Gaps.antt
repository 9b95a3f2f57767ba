-- ===== src/Memo/Gaps.antt =====
-- Where a memo names a gap (backend/app/services/memo.py), by a table of its own of what each
-- section needs.
use dolphin_vc.Base.{
  arith, ℕ, if◌then◌else◌, ◌≡◌, ◌∙◌, refl, ap, inl, inr, String, Bool, true, false, not, List, [],
  ◌∷◌, ◌++◌, map, any_where, select_where, Bool-cases,
}
use dolphin_vc.Types.{DecisionKind, ClaimCategory}
use dolphin_vc.Records.{Claim}
use dolphin_vc.Memo.Compose.{
  recommendation_section, compose_sections, compose_memo, required_sections, Required,
  in_categories,
}
use dolphin_vc.Memo.Sections.{sections-gaps, sections-keys, keys-insert, keys, draft, lacks}

-- What a claim can tell of, section by section.
abbrev pub on_company : ClaimCategory → Bool
on_company ClaimCategory.product = true
on_company ClaimCategory.market = true
on_company _ = false

abbrev pub on_hypotheses : ClaimCategory → Bool
on_hypotheses ClaimCategory.team = true
on_hypotheses ClaimCategory.traction = true
on_hypotheses ClaimCategory.technology = true
on_hypotheses _ = false

abbrev pub on_swot : ClaimCategory → Bool
on_swot ClaimCategory.market = true
on_swot ClaimCategory.product = true
on_swot ClaimCategory.technology = true
on_swot _ = false

abbrev pub on_product : ClaimCategory → Bool
on_product ClaimCategory.product = true
on_product _ = false

abbrev pub on_kpis : ClaimCategory → Bool
on_kpis ClaimCategory.traction = true
on_kpis ClaimCategory.revenue = true
on_kpis _ = false

-- The key, unless some claim tells of it.
abbrev pub gap_unless : (ClaimCategory → Bool) → List Claim → String → List String
gap_unless tells claims key = if any_where (λ c. tells c.category) claims then [] else key ∷ []

lacks_lem :
    (tells : ClaimCategory → Bool) (r : Required) (claims : List Claim)
    → ((c : Claim) → in_categories r.categories c ≡ tells c.category)
    → lacks claims r ≡ not (any_where (λ c. tells c.category) claims)
unfolding any_where select_where
lacks_lem tells r [] same = refl
lacks_lem tells r (c ∷ claims) same = elim (Bool-cases (tells c.category)) [
  | inl hit ↦ rw (same c ∙ hit, hit) refl
  | inr miss ↦ rw (same c ∙ miss, miss) (lacks_lem tells r claims same)
]

gap_step :
    (tells : ClaimCategory → Bool) (r : Required) (claims : List Claim) (rs : List Required)
    → ((c : Claim) → in_categories r.categories c ≡ tells c.category)
    → map (λ r. r.key) (select_where (lacks claims) (r ∷ rs))
      ≡ gap_unless tells claims r.key ++ map (λ r. r.key) (select_where (lacks claims) rs)
unfolding select_where
gap_step tells r claims rs same = elim (Bool-cases (any_where (λ c. tells c.category) claims)) [
  | inl hit ↦ rw (lacks_lem tells r claims same ∙ ap not hit, hit) refl
  | inr miss ↦ rw (lacks_lem tells r claims same ∙ ap not miss, miss) refl
]

abbrev pub gap_keys : List Claim → List String
gap_keys claims =
    gap_unless on_company claims "company_snapshot"
    ++ (gap_unless on_hypotheses claims "investment_hypotheses"
        ++ (gap_unless on_swot claims "swot"
            ++ (gap_unless on_product claims "problem_product"
                ++ (gap_unless on_kpis claims "traction_kpis" ++ []))))

no_sections : (claims : List Claim) → map (λ r. r.key) (select_where (lacks claims) []) ≡ []
unfolding select_where
no_sections claims = refl

required_lem :
    (claims : List Claim)
    → map (λ r. r.key) (select_where (lacks claims) required_sections) ≡ gap_keys claims
unfolding required_sections any_where
required_lem claims =
    gap_step on_company _ claims _ (λ c. ground arith)
    ∙ ap (λ l. gap_unless on_company claims "company_snapshot" ++ l)
        (gap_step on_hypotheses _ claims _ (λ c. ground arith)
          ∙ ap (λ l. gap_unless on_hypotheses claims "investment_hypotheses" ++ l)
              (gap_step on_swot _ claims _ (λ c. ground arith)
                ∙ ap (λ l. gap_unless on_swot claims "swot" ++ l)
                    (gap_step on_product _ claims _ (λ c. ground arith)
                      ∙ ap (λ l. gap_unless on_product claims "problem_product" ++ l)
                          (gap_step on_kpis _ claims _ (λ c. ground arith)
                            ∙ ap (λ l. gap_unless on_kpis claims "traction_kpis" ++ l)
                                (no_sections claims)))))

module _ (show_id fixed_two : ℕ → String) (title : String → String) (claims : List Claim)
    (decision : DecisionKind) (rationale : String) where
  -- A memo has the sections `company_snapshot`, `investment_hypotheses`, `swot`, `problem_product`,
  -- `traction_kpis` and `recommendation`, in this order. Of the first five it names as gaps, in this
  -- order and once each, those of which no claim tells: a claim on the product or the market tells
  -- of the first, one on the team, the traction or the technology of the second, one on the market,
  -- the product or the technology of the third, one on the product of the fourth, and one on the
  -- traction or the revenue of the fifth.
  pub compose_memo-gaps :
      let memo = draft show_id fixed_two title claims decision rationale in
      (keys memo.sections
        ≡ "company_snapshot" ∷ "investment_hypotheses" ∷ "swot" ∷ "problem_product"
          ∷ "traction_kpis" ∷ "recommendation" ∷ [])
      × (map (λ g. g.field) memo.gaps ≡ gap_keys claims)
  unfolding compose_memo required_sections
  compose_memo-gaps = (
    keys-insert (compose_sections show_id fixed_two title required_sections claims).0
          (recommendation_section show_id fixed_two title decision rationale)
        ∙ ap (λ (l : List String). l ++ "recommendation" ∷ [])
            (sections-keys show_id fixed_two title claims required_sections),
    sections-gaps show_id fixed_two title claims required_sections ∙ required_lem claims,
  )
