-- ===== src/Pipeline/Axes.antt =====
-- `_score_axes` and `_thesis_fit` of backend/app/services/pipeline.py. Scores are in hundredths and
-- confidences in thousandths.
use dolphin_vc.Base.{
  max_where, false, true, ℕ, ◌+◌, ◌*◌, ◌-◌, String, Bool, ◌&&◌, ◌||◌, Option, none, some, List, [],
  ◌∷◌, ◌++◌, ltb, ◌==◌, if◌then◌else◌, any_where, find_where, select_where, count_where, min,
  str_eq,
}
use dolphin_vc.Base.Text.{join}
use dolphin_vc.Types.{AxisKind, TrendKind, MarketStance, ClaimCategory}
use dolphin_vc.Session.{Tx, pure, query, modify, ◌>>=◌, ◌>>◌}
use dolphin_vc.Records.{
  Db, Opportunity, Company, Claim, Thesis, OpportunityScore, FounderScore, Affiliation, set_scores,
}
use dolphin_vc.Memo.Compose.{same_category}
use dolphin_vc.Scoring.ThesisFit.{FitInput, compute_thesis_fit}

-- `==` between two axes
abbrev pub same_axis : AxisKind → AxisKind → Bool
same_axis AxisKind.founder AxisKind.founder = true
same_axis AxisKind.market AxisKind.market = true
same_axis AxisKind.idea_vs_market AxisKind.idea_vs_market = true
same_axis _ _ = false

-- One entry of `values`.
pub record AxisDraft : Type 0 where
  pub axis : AxisKind
  pub score : ℕ
  pub confidence : ℕ
  pub rationale : String
  pub stance : Option MarketStance

abbrev founds : ℕ → ℕ → Affiliation → Bool
founds company person a = a.company_id == company && (a.person_id == person && a.is_founder)

-- The scores of the founders of a company.
unfoldable pub founder_scores_of : ℕ → Db → List FounderScore
founder_scores_of company db =
    select_where (λ (f : FounderScore). any_where (founds company f.person_id) db.affiliations)
      db.founder_scores

-- `max(founder_scores, key=lambda item: item.score)`: the first of the highest
unfoldable pub best : FounderScore → List FounderScore → FounderScore
best f [] = f
best f (g ∷ rest) = best (if ltb f.score g.score then g else f) rest

-- `35 + (best.score - 300) / 600 * 60`, where the score is at least 300
abbrev founder_value : ℕ → ℕ
founder_value score = score * 10 + 500

abbrev pub founder_draft : List FounderScore → AxisDraft
founder_draft [] = record {
  axis = AxisKind.founder;
  score = 5000;
  confidence = 200;
  rationale = "No resolved founder profile; cohort prior used without penalty.";
  stance = none;
}
founder_draft (f ∷ rest) = record {
  axis = AxisKind.founder;
  score = founder_value (best f rest).score;
  confidence = (best f rest).confidence;
  rationale = "Founder Score and team evidence are available.";
  stance = none;
}

abbrev of_category : ClaimCategory → Claim → Bool
of_category category c = same_category c.category category

unfoldable pub market_count : List Claim → ℕ
market_count = count_where (of_category ClaimCategory.market)

unfoldable pub traction_count : List Claim → ℕ
traction_count =
    count_where (λ c. of_category ClaimCategory.traction c || of_category ClaimCategory.revenue c)

unfoldable pub product_count : List Claim → ℕ
product_count =
    count_where (λ c. of_category ClaimCategory.product c || of_category ClaimCategory.technology c)

-- `values`
unfoldable pub axis_drafts : List FounderScore → List Claim → List AxisDraft
unfolding best
axis_drafts founders claims =
    let m = market_count claims in
    let t = traction_count claims in
    let p = product_count claims in
    founder_draft founders
    ∷ record {
      axis = AxisKind.market;
      score = min 8000 (4800 + m * 800 + t * 200);
      confidence = min 750 (220 + m * 150);
      rationale = "Market score reflects only evidence-backed market and traction claims.";
      stance = some MarketStance.neutral;
    }
    ∷ record {
      axis = AxisKind.idea_vs_market;
      score = min 8000 (5000 + p * 600 + t * 300);
      confidence = min 750 (250 + p * 120 + t * 80);
      rationale = "Idea-vs-market score reflects product specificity and demonstrated pull.";
      stance = none;
    }
    ∷ []

abbrev pub score_of : ℕ → AxisKind → OpportunityScore → Bool
score_of opportunity axis s = (s.opportunity_id == opportunity) && same_axis s.axis axis

-- `select(func.max(OpportunityScore.version))`
unfoldable pub latest_version : ℕ → AxisKind → List OpportunityScore → ℕ
unfolding max_where
latest_version opportunity axis = max_where (λ s. s.version) (score_of opportunity axis)

-- The row of the latest version.
abbrev pub previous_score : ℕ → AxisKind → List OpportunityScore → Option OpportunityScore
previous_score opportunity axis rows =
    let version = latest_version opportunity axis rows in
    find_where (λ s. score_of opportunity axis s && s.version == version) rows

unfoldable trend_of : ℕ → Option OpportunityScore → TrendKind
trend_of score none = TrendKind.insufficient_data
trend_of score (some s) =
    if ltb ((score - s.score) + (s.score - score)) 300
    then TrendKind.stable
    else if ltb s.score score
    then TrendKind.improving
    else TrendKind.declining

-- The row of one axis, made from the rows that are there.
unfoldable pub score_row : ℕ → List OpportunityScore → AxisDraft → OpportunityScore
unfolding trend_of latest_version
score_row opportunity rows d = record {
  opportunity_id = opportunity;
  axis = d.axis;
  score = d.score;
  confidence = d.confidence;
  trend = trend_of d.score (previous_score opportunity d.axis rows);
  stance = d.stance;
  rationale = d.rationale;
  version = latest_version opportunity d.axis rows + 1;
}

unfoldable pub add_score : ℕ → AxisDraft → Tx Db OpportunityScore
unfolding score_row
add_score opportunity d = do
  row ← query (λ db. score_row opportunity db.scores d)
  modify (set_scores (λ rows. rows ++ row ∷ []))
  pure row

-- The loop over the values.
unfoldable pub add_scores : ℕ → List AxisDraft → Tx Db (List OpportunityScore)
unfolding add_score
add_scores opportunity [] = pure []
add_scores opportunity (d ∷ drafts) = do
  row ← add_score opportunity d
  rows ← add_scores opportunity drafts
  pure (row ∷ rows)

-- `_score_axes`
unfoldable pub score_axes : Opportunity → List Claim → Tx Db (List OpportunityScore)
unfolding add_scores founder_scores_of axis_drafts
score_axes o claims = do
  founders ← query (founder_scores_of o.company_id)
  add_scores o.id (axis_drafts founders claims)

-- `" ".join(filter(None, texts))`
abbrev present : List (Option String) → List String
present [] = []
present (none ∷ texts) = present texts
present (some s ∷ texts) = let rest = present texts in if str_eq s "" then rest else s ∷ rest

abbrev fit_input : Company → Thesis → FitInput
fit_input company thesis = record {
  company_sectors = company.sectors;
  company_stage = company.stage;
  company_country = company.hq_country;
  thesis_sectors = thesis.sectors;
  anti_sectors = thesis.anti_sectors;
  stages = thesis.stages;
  geos = thesis.geos;
  must_haves = thesis.must_haves;
  company_text = join " " (present (company.one_liner ∷ company.description ∷ []));
}

abbrev pub find_thesis : Option ℕ → Db → Option Thesis
find_thesis none db = none
find_thesis (some id) db = find_where (λ (t : Thesis). t.id == id) db.theses

module _ (casefold : String → String) (round : ℕ → ℕ → ℕ) where
  abbrev pub fit_of : Company → Option Thesis → ℕ × Option String
  fit_of company none = (7000, none)
  fit_of company (some thesis) =
      let result = compute_thesis_fit casefold round (fit_input company thesis) in
      (result.score, result.gate_reason)

  -- `_thesis_fit`: the fit and the reason of a gate that failed
  unfoldable pub thesis_fit : Opportunity → Company → Tx Db (ℕ × Option String)
  unfolding compute_thesis_fit join
  thesis_fit o company = do thesis ← query (find_thesis o.thesis_id); pure (fit_of company thesis)
