-- ===== src/Tests/Memo.antt =====
-- A memo of two claims, one of them on legal matters.
use dolphin_vc.Base.{none, ℕ, ◌≡◌, String, List, [], ◌∷◌, map}
use dolphin_vc.Types.{ClaimCategory, ClaimStatus, DecisionKind}
use dolphin_vc.Records.{Claim}
use dolphin_vc.Memo.Gaps.{compose_memo-gaps, gap_keys}
use dolphin_vc.Memo.Sections.{keys, draft}
use dolphin_vc.Base.{refl, any_where}

abbrev claim : ℕ → ClaimCategory → Claim
claim id category = record {
  id = id;
  org_id = 7;
  opportunity_id = 11;
  company_id = none;
  category = category;
  predicate = "p";
  text = "ten customers";
  value_num = none;
  value_unit = none;
  status = ClaimStatus.claimed;
  trust_score = 60;
  verification_note = none;
  extracted_by = none;
}

abbrev claims : List Claim
claims = claim 1 ClaimCategory.traction ∷ claim 2 ClaimCategory.legal ∷ []

abbrev show : ℕ → String
show n = "n"

compose_memo-gaps_example :
    let memo = draft show show (λ s. s) claims DecisionKind.invest "good" in
    (keys memo.sections
      ≡ "company_snapshot" ∷ "investment_hypotheses" ∷ "swot" ∷ "problem_product" ∷ "traction_kpis"
        ∷ "recommendation" ∷ [])
    × (map (λ g. g.field) memo.gaps ≡ gap_keys claims)
compose_memo-gaps_example = compose_memo-gaps show show (λ s. s) claims DecisionKind.invest "good"

-- The claim on the traction leaves three of the five sections without one.
three_gaps : gap_keys claims ≡ "company_snapshot" ∷ "swot" ∷ "problem_product" ∷ []
unfolding any_where
three_gaps = refl
