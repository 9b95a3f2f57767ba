-- ===== src/Opportunities/Cards.antt =====
-- What is shown of an opportunity: `_founders`, `_axes` and `_trust_summary` of
-- backend/app/services/opportunities.py, and `opportunity_scores` and `claim_evidence` of
-- backend/app/routers/opportunities.py. Where an order leaves rows equal, they keep the order of the
-- table; `rank` is the order of the axes in the database.
use dolphin_vc.Base.{
  ℕ, String, Bool, true, false, ◌&&◌, ◌||◌, Option, none, some, List, [], ◌∷◌, ltb, ◌==◌,
  if◌then◌else◌, is_none, find_where, select_where,
}
use dolphin_vc.Types.{AxisKind, ClaimStatus}
use dolphin_vc.Errors.{not_found_error}
use dolphin_vc.Session.{Tx, pure, query, or_raise, ◌>>=◌, ◌>>◌}
use dolphin_vc.Records.{Db, Person, FounderScore, Affiliation, OpportunityScore, Claim, Evidence}
use dolphin_vc.Opportunities.Commands.{get_opportunity}
use dolphin_vc.Pipeline.Axes.{same_axis}
use dolphin_vc.Pipeline.Screen.{trust_counts}

-- `FounderSummary`
pub record FounderSummary : Type 0 where
  pub person_id : ℕ
  pub name : String
  pub founder_score : Option ℕ
  pub founder_score_ci : Option (ℕ × ℕ)
  pub cold_start : Bool

abbrev founder_summary : Person → Option FounderScore → FounderSummary
founder_summary p none = record {
  person_id = p.id;
  name = p.display_name;
  founder_score = none;
  founder_score_ci = none;
  cold_start = true;
}
founder_summary p (some s) = record {
  person_id = p.id;
  name = p.display_name;
  founder_score = some s.score;
  founder_score_ci = some (s.ci_low, s.ci_high);
  cold_start = s.cold_start;
}

-- One row of the join for each affiliation of a founder and its person; a person has one score.
unfoldable summaries : Db → List Affiliation → List FounderSummary
summaries db [] = []
summaries db (a ∷ rows) = elim (find_where (λ (p : Person). p.id == a.person_id) db.persons) [
  | none ↦ summaries db rows
  | some p ↦
      founder_summary p (find_where (λ (s : FounderScore). s.person_id == p.id) db.founder_scores)
      ∷ summaries db rows
]

-- `_founders`
unfoldable pub founders : ℕ → Db → List FounderSummary
unfolding summaries
founders company db =
    summaries db
      (select_where (λ (a : Affiliation). a.company_id == company && a.is_founder) db.affiliations)

-- `_trust_summary`
unfoldable pub trust_summary : ℕ → Db → List (ClaimStatus × ℕ)
unfolding trust_counts
trust_summary opportunity db =
    trust_counts (select_where (λ (c : Claim). c.opportunity_id == opportunity) db.claims)

-- `order_by`: a row stands behind those that precede it.
module _ (precedes : OpportunityScore → OpportunityScore → Bool) where
  abbrev pub place_score : OpportunityScore → List OpportunityScore → List OpportunityScore
  place_score a [] = a ∷ []
  place_score a (x ∷ rows) =
      let rest = place_score a rows in if precedes x a then x ∷ rest else a ∷ x ∷ rows

  unfoldable pub order_scores : List OpportunityScore → List OpportunityScore
  order_scores [] = []
  order_scores (x ∷ rows) = place_score x (order_scores rows)

abbrev pub scores_of : ℕ → Db → List OpportunityScore
scores_of opportunity db =
    select_where (λ (s : OpportunityScore). s.opportunity_id == opportunity) db.scores

-- `version.desc()`
abbrev pub by_version : OpportunityScore → OpportunityScore → Bool
by_version x a = ltb a.version x.version

-- `latest`, a row or none for each axis
abbrev pub Latest : Type 0
Latest = AxisKind → Option OpportunityScore

abbrev pub put_axis : OpportunityScore → Latest → Latest
put_axis s latest axis = if same_axis s.axis axis then some s else latest axis

unfoldable pub fill : List OpportunityScore → Latest → Latest
fill [] latest = latest
fill (s ∷ rows) latest = fill rows (if is_none (latest s.axis) then put_axis s latest else latest)

-- `_axes`
unfoldable pub axes_of : ℕ → Db → Latest
unfolding order_scores fill
axes_of opportunity db = fill (order_scores by_version (scores_of opportunity db)) (λ axis. none)

-- `ScoreHistory`
pub record ScoreHistory : Type 0 where
  pub current : List OpportunityScore
  pub history : List OpportunityScore

abbrev pub see : AxisKind → (AxisKind → Bool) → AxisKind → Bool
see axis seen other = same_axis axis other || seen other

-- The first row of each axis.
unfoldable pub first_of_axes : (AxisKind → Bool) → List OpportunityScore → List OpportunityScore
first_of_axes seen [] = []
first_of_axes seen (s ∷ rows) =
    let rest = first_of_axes (see s.axis seen) rows in
    let skipped = first_of_axes seen rows in if seen s.axis then skipped else s ∷ rest

-- `order_by(axis, version.desc())`
abbrev pub by_axis : (AxisKind → ℕ) → OpportunityScore → OpportunityScore → Bool
by_axis rank x a =
    ltb (rank x.axis) (rank a.axis) || ((rank x.axis == rank a.axis) && ltb a.version x.version)

-- `opportunity_scores`
unfoldable pub opportunity_scores : (AxisKind → ℕ) → ℕ → ℕ → Bool → Tx Db ScoreHistory
unfolding get_opportunity order_scores first_of_axes
opportunity_scores rank org_id opportunity history = do
  get_opportunity org_id opportunity
  rows ← query (λ db. order_scores (by_axis rank) (scores_of opportunity db))
  pure (record {
    current = first_of_axes (λ axis. false) rows;
    history = if history then rows else [];
  })

-- `claim_evidence`
unfoldable claim_evidence : ℕ → ℕ → ℕ → Tx Db (List Evidence)
unfolding get_opportunity
claim_evidence org_id opportunity claim = do
  get_opportunity org_id opportunity
  found ←
      query (λ db.
        find_where (λ (c : Claim). c.id == claim && c.opportunity_id == opportunity) db.claims)
  or_raise found (not_found_error "Claim was not found.")
  query (λ db. select_where (λ (e : Evidence). e.claim_id == claim) db.evidence)
