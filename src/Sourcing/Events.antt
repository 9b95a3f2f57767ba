-- ===== src/Sourcing/Events.antt =====
-- `_score_events_for` of backend/app/services/ingestion.py, and the loop of
-- `_record_founder_events` over the events that a signal gives.
use dolphin_vc.Base.{
  ℕ, ◌+◌, ◌*◌, ◌/◌, String, Bool, ◌&&◌, Option, none, some, List, [], ◌∷◌, ◌++◌, ◌==◌, str_eq,
  opt_is, find_where, min,
}
use dolphin_vc.Types.{SignalKind}
use dolphin_vc.Session.{Tx, pure, query, modify, ◌>>=◌, ◌>>◌}
use dolphin_vc.Records.{Db, Signal, FounderScoreEvent, set_founder_events}

-- One entry of the scores that a signal gives: the component, the delta, the weight and the reason.
pub record ScoreDraft : Type 0 where
  pub component : String
  pub delta : ℕ
  pub weight : ℕ
  pub reason : String

abbrev score_draft : String → ℕ → ℕ → String → ScoreDraft
score_draft component delta weight reason = record {
  component = component;
  delta = delta;
  weight = weight;
  reason = reason;
}

abbrev repository_drafts : ℕ → List ScoreDraft
repository_drafts stars =
    score_draft "execution" 6200 800 "Public repository activity."
    ∷ score_draft "technical_depth" 6800 800 "Public technical artifact."
    ∷ score_draft "validation" (min 82 (42 + stars / 25) * 100) 650 "Repository adoption signal."
    ∷ []

abbrev paper_drafts : List ScoreDraft
paper_drafts =
    score_draft "technical_depth" 7600 850 "Published research artifact."
    ∷ score_draft "domain_expertise" 7000 750 "Research domain evidence."
    ∷ []

abbrev launch_drafts : List ScoreDraft
launch_drafts =
    score_draft "communication" 5800 450 "Public launch communication."
    ∷ score_draft "execution" 5400 450 "Public product-launch evidence."
    ∷ []

abbrev drafts_of : SignalKind → ℕ → List ScoreDraft
drafts_of SignalKind.repo_activity stars = repository_drafts stars
drafts_of SignalKind.paper stars = paper_drafts
drafts_of SignalKind.launch_post stars = launch_drafts
drafts_of SignalKind.press stars = launch_drafts
drafts_of _ stars = []

-- `_score_events_for`
unfoldable pub score_events_for : Signal → List ScoreDraft
score_events_for signal = drafts_of signal.kind signal.stars

abbrev event_for : ℕ → ℕ → String → FounderScoreEvent → Bool
event_for person signal component e =
    e.person_id == person && (opt_is e.signal_id signal && str_eq e.component component)

abbrev signal_event : ℕ → Signal → ScoreDraft → FounderScoreEvent
signal_event person signal d = record {
  person_id = person;
  component = d.component;
  delta = d.delta;
  weight = d.weight;
  reason = d.reason;
  signal_id = some signal.id;
  occurred_at = signal.observed_at;
}

-- The row is put in where the query has found none.
abbrev pub insert_unless : {A B : Type 0} → Option A → B → List B → List B
insert_unless (some _) row rows = rows
insert_unless none row rows = rows ++ row ∷ []

-- The loop over the drafts.
unfoldable pub add_events : ℕ → Signal → List ScoreDraft → Tx Db (Unit {0})
add_events person signal [] = pure tt
add_events person signal (d ∷ drafts) = do
  existing ← query (λ db. find_where (event_for person signal.id d.component) db.founder_events)
  modify (set_founder_events (insert_unless existing (signal_event person signal d)))
  add_events person signal drafts
