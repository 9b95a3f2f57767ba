-- ===== src/Tests/Cards.antt =====
-- The scores of an opportunity that has been screened twice.
use dolphin_vc.Base.{ℕ, ◌≡◌, refl, true, none, [], ◌∷◌, find_where, select_where}
use dolphin_vc.Types.{AxisKind, TrendKind}
use dolphin_vc.Errors.{ok}
use dolphin_vc.Session.{request}
use dolphin_vc.Records.{OpportunityScore, Db, empty_db}
use dolphin_vc.Pipeline.Axes.{previous_score}
use dolphin_vc.Opportunities.Cards.{ScoreHistory, axes_of, opportunity_scores}
use dolphin_vc.Opportunities.Ranking.{on}
use dolphin_vc.Opportunities.Current.{opportunity_scores-axes_of}
use dolphin_vc.Tests.Screening.{deal}

abbrev score : AxisKind → ℕ → OpportunityScore
score axis version = record {
  opportunity_id = 11;
  axis = axis;
  score = 7000;
  confidence = 600;
  trend = TrendKind.insufficient_data;
  stance = none;
  rationale = "";
  version = version;
}

abbrev scored : Db
scored = record empty_db {
  opportunities = deal ∷ [];
  scores =
      score AxisKind.founder 1
      ∷ score AxisKind.market 1
      ∷ score AxisKind.founder 2
      ∷ record (score AxisKind.founder 9) { opportunity_id = 12 }
      ∷ [];
}

abbrev rank : AxisKind → ℕ
rank AxisKind.founder = 0
rank AxisKind.idea_vs_market = 1
rank AxisKind.market = 2

abbrev listed : ScoreHistory
listed = record {
  current = score AxisKind.founder 2 ∷ score AxisKind.market 1 ∷ [];
  history = score AxisKind.founder 2 ∷ score AxisKind.founder 1 ∷ score AxisKind.market 1 ∷ [];
}

listed_ok : (request (opportunity_scores rank 7 11 true) scored).0 ≡ ok listed
unfolding opportunity_scores find_where select_where
listed_ok = refl

opportunity_scores-axes_of_example :
    (find_where (on AxisKind.founder) listed.current ≡ axes_of 11 scored AxisKind.founder)
    × (axes_of 11 scored AxisKind.founder ≡ previous_score 11 AxisKind.founder scored.scores)
opportunity_scores-axes_of_example =
    opportunity_scores-axes_of rank 7 11 true scored listed listed_ok AxisKind.founder
