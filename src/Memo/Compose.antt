-- ===== src/Memo/Compose.antt =====
-- `REQUIRED_SECTIONS` and `compose_memo` of backend/app/services/memo.py, on the claims that
-- `process_job` passes. The texts of an id and of a trust score with two decimals are parameters, as
-- is `title`, which puts words in title case.
use Prim.Native.String.{◌++◌ as str_append}
use dolphin_vc.Base.{
  ℕ, ◌+◌, String, Bool, true, false, none, List, [], ◌∷◌, ◌++◌, map, any_where, select_where,
  length,
}
use dolphin_vc.Base.Text.{split}
use dolphin_vc.Types.{ClaimCategory, DecisionKind}
use dolphin_vc.Records.{Claim, Section, Gap}

-- `==` between two categories
abbrev pub same_category : ClaimCategory → ClaimCategory → Bool
same_category ClaimCategory.traction ClaimCategory.traction = true
same_category ClaimCategory.revenue ClaimCategory.revenue = true
same_category ClaimCategory.team ClaimCategory.team = true
same_category ClaimCategory.market ClaimCategory.market = true
same_category ClaimCategory.product ClaimCategory.product = true
same_category ClaimCategory.technology ClaimCategory.technology = true
same_category ClaimCategory.funding ClaimCategory.funding = true
same_category ClaimCategory.legal ClaimCategory.legal = true
same_category ClaimCategory.other ClaimCategory.other = true
same_category _ _ = false

pub record Required : Type 0 where
  pub key : String
  pub categories : List ClaimCategory

abbrev need : String → List ClaimCategory → Required
need key categories = record { key = key; categories = categories }

unfoldable pub required_sections : List Required
required_sections =
    need "company_snapshot" (ClaimCategory.product ∷ ClaimCategory.market ∷ [])
    ∷ need "investment_hypotheses"
        (ClaimCategory.team ∷ ClaimCategory.traction ∷ ClaimCategory.technology ∷ [])
    ∷ need "swot" (ClaimCategory.market ∷ ClaimCategory.product ∷ ClaimCategory.technology ∷ [])
    ∷ need "problem_product" (ClaimCategory.product ∷ [])
    ∷ need "traction_kpis" (ClaimCategory.traction ∷ ClaimCategory.revenue ∷ [])
    ∷ []

pub record MemoDraft : Type 0 where
  pub sections : List Section
  pub gaps : List Gap
  pub word_count : ℕ

-- `"\n".join(lines)`
abbrev join_lines : List String → String
join_lines [] = ""
join_lines (s ∷ []) = s
join_lines (s ∷ t ∷ rest) = str_append s (str_append "\n" (join_lines (t ∷ rest)))

abbrev pub in_categories : List ClaimCategory → Claim → Bool
in_categories categories c = any_where (same_category c.category) categories

-- The claims of a section.
abbrev pub relevant : Required → List Claim → List Claim
relevant r = select_where (in_categories r.categories)

-- What a section without claims adds to the gaps.
abbrev pub gap_of : String → List Claim → List Gap
gap_of key [] =
    record {
      field = key;
      reason = "not_disclosed";
      how_to_resolve = "Request primary documentation or a founder answer.";
    }
    ∷ []
gap_of key (_ ∷ _) = []

abbrev no_claims : List Claim → List String
no_claims [] = "No evidence-backed claims are available for this section." ∷ []
no_claims (_ ∷ _) = []

-- `decision.value`
abbrev decision_value : DecisionKind → String
decision_value DecisionKind.invest = "invest"
decision_value DecisionKind.pass = "pass"
decision_value DecisionKind.watchlist = "watchlist"
decision_value DecisionKind.needs_human = "needs_human"

abbrev words : List Section → ℕ
words [] = 0
words (s ∷ sections) = length (split s.markdown) + words sections

module _ (show_id fixed_two : ℕ → String) (title : String → String) where
  abbrev bullet : Claim → String
  bullet c = str_append "- " (
      str_append c.text (
        str_append " [claim:" (
          str_append (show_id c.id)
            (str_append "] (trust " (str_append (fixed_two c.trust_score) ")")))))

  abbrev markdown_of : List Claim → String
  markdown_of [] = "Not disclosed in the available evidence."
  markdown_of (c ∷ claims) = join_lines (map bullet (c ∷ claims))

  unfoldable section_of : Required → List Claim → Section
  section_of r claims = record {
    key = r.key;
    title = title r.key;
    markdown = markdown_of claims;
    claim_ids = map (λ c. show_id c.id) claims;
    gaps = no_claims claims;
    edited_by = none;
    edited_at = none;
  }

  -- The loop over the required sections.
  unfoldable pub compose_sections : List Required → List Claim → List Section × List Gap
  unfolding section_of
  compose_sections [] claims = ([], [])
  compose_sections (r ∷ rest) claims =
      let (sections, gaps) = compose_sections rest claims in
      (section_of r (relevant r claims) ∷ sections, gap_of r.key (relevant r claims) ++ gaps)

  abbrev pub recommendation_section : DecisionKind → String → Section
  recommendation_section decision rationale = record {
    key = "recommendation";
    title = "Recommendation";
    markdown =
        str_append "**"
          (str_append (title (decision_value decision)) (str_append "** — " rationale));
    claim_ids = [];
    gaps = [];
    edited_by = none;
    edited_at = none;
  }

  unfoldable pub compose_memo : List Claim → DecisionKind → String → MemoDraft
  unfolding compose_sections
  compose_memo claims decision rationale =
      let (sections, gaps) = compose_sections required_sections claims in
      let all = sections ++ recommendation_section decision rationale ∷ [] in
      record { sections = all; gaps = gaps; word_count = words all }
