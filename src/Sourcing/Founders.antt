-- ===== src/Sourcing/Founders.antt =====
-- `recompute_founder_score` of backend/app/services/founders.py. The statistics of
-- backend/app/services/score/founder.py, on floating-point numbers, are a parameter; the columns
-- `components`, `trend_30d` and `computed_at`, which nothing here reads, are left out.
use dolphin_vc.Base.{
  ℕ, ◌+◌, ◌-◌, Bool, ◌&&◌, Option, none, some, List, [], ◌∷◌, ◌++◌, ltb, leb, ◌==◌, if◌then◌else◌,
  find_where, select_where, update_where,
}
use dolphin_vc.Types.{TrendKind}
use dolphin_vc.Session.{Tx, query, modify, ◌>>=◌, ◌>>◌}
use dolphin_vc.Records.{
  Db, FounderScore, FounderScoreEvent, FounderScoreSnapshot, set_founder_scores, set_snapshots,
}
use dolphin_vc.Sourcing.Names.{Tools, FounderScoreResult}

module _ {ℓ} {A : Type ℓ} (column : A → ℕ) where
  abbrev pub place_by : A → List A → List A
  place_by a [] = a ∷ []
  place_by a (x ∷ rows) =
      let rest = place_by a rows in if leb (column a) (column x) then a ∷ x ∷ rows else x ∷ rest

  -- `order_by(column)`
  unfoldable pub order_by : List A → List A
  order_by [] = []
  order_by (x ∷ rows) = place_by x (order_by rows)

abbrev event_of : ℕ → FounderScoreEvent → Bool
event_of person e = e.person_id == person

abbrev score_is : ℕ → FounderScore → Bool
score_is person s = s.person_id == person

abbrev snapshot_is : ℕ → ℕ → FounderScoreSnapshot → Bool
snapshot_is person day s = s.person_id == person && s.day == day

-- The trend of a new score against the current one.
unfoldable founder_trend : ℕ → ℕ → TrendKind
founder_trend new current =
    if ltb ((new - current) + (current - new)) 3
    then TrendKind.stable
    else if ltb current new
    then TrendKind.improving
    else TrendKind.declining

abbrev first_score : ℕ → FounderScoreResult → FounderScore
first_score person result = record {
  person_id = person;
  score = result.score;
  ci_low = result.ci_low;
  ci_high = result.ci_high;
  confidence = result.confidence;
  cold_start = result.cold_start;
  trend = TrendKind.insufficient_data;
  version = 1;
}

abbrev next_score : FounderScoreResult → FounderScore → FounderScore
next_score result current = record {
  person_id = current.person_id;
  score = result.score;
  ci_low = result.ci_low;
  ci_high = result.ci_high;
  confidence = result.confidence;
  cold_start = result.cold_start;
  trend = founder_trend result.score current.score;
  version = current.version + 1;
}

abbrev new_snapshot : ℕ → ℕ → FounderScoreResult → FounderScoreSnapshot
new_snapshot person day result = record {
  person_id = person;
  day = day;
  score = result.score;
  confidence = result.confidence;
}

abbrev with_score :
    Option FounderScore → ℕ → FounderScoreResult → List FounderScore → List FounderScore
with_score none person result rows = rows ++ first_score person result ∷ []
with_score (some _) person result rows = update_where (score_is person) (next_score result) rows

abbrev with_snapshot :
    Option FounderScoreSnapshot
    → ℕ
    → ℕ
    → FounderScoreResult
    → List FounderScoreSnapshot
    → List FounderScoreSnapshot
with_snapshot none person day result rows = rows ++ new_snapshot person day result ∷ []
with_snapshot (some _) person day result rows =
    update_where (snapshot_is person day)
      (λ s. record s { score = result.score; confidence = result.confidence }) rows

-- `recompute_founder_score`
unfoldable pub recompute_founder_score : Tools → ℕ → ℕ → Tx Db (Unit {0})
unfolding order_by founder_trend
recompute_founder_score tools now person = do
  events ← query (λ db.
      order_by (λ (e : FounderScoreEvent). e.occurred_at)
        (select_where (event_of person) db.founder_events))
  let result = tools.compute now events
  current ← query (λ db. find_where (score_is person) db.founder_scores)
  modify (set_founder_scores (with_score current person result))
  snapshot ← query (λ db. find_where (snapshot_is person (tools.day now)) db.snapshots)
  modify (set_snapshots (with_snapshot snapshot person (tools.day now) result))
