-- ===== src/Tests/Sourcing.antt =====
-- Signals and applications at work: a launch post that two organisations harvest, and a founder's form.
use dolphin_vc.Pipeline.Process.{process_job}
use dolphin_vc.Pipeline.Versions.{UniqueVersions}
use dolphin_vc.Tests.Pipeline.{empty-UniqueVersions, db, describe, draw, tools, job}
use dolphin_vc.Sourcing.Items.{ingest_items, Tally, NormalizedSignal, ItemDraw}
use dolphin_vc.Sourcing.Harvest.{process_harvest, new_source, new_channel, SourceDraw, Connectors}
use dolphin_vc.Base.{
  ◌/◌, if◌then◌else◌, count_where, ℕ, ◌+◌, ◌≡◌, ◌≤◌, refl, arith, String, Bool, true, false, Option,
  none, some, List, [], ◌∷◌, ◌++◌, length, str_eq,
}
use dolphin_vc.Types.{SignalKind}
use dolphin_vc.Errors.{AppError, Result, ok}
use dolphin_vc.Session.{pure, ◌>>=◌, Conn, connect, request}
use dolphin_vc.Records.{Job, Db, empty_db, Source, SourcingChannel, FounderScoreEvent}
use dolphin_vc.Opportunities.Creation.{CreationDraw}
use dolphin_vc.Sourcing.Names.{Tools, FounderScoreResult}
use dolphin_vc.Sourcing.Invariants.{Consistent, process_harvest-Consistent, worker-UniqueVersions}
use dolphin_vc.Sourcing.Known.{ingest_again}

-- A score that grows with the number of events.
abbrev scored : ℕ → List FounderScoreEvent → FounderScoreResult
scored now events = record {
  score = 500 + length events;
  ci_low = 400;
  ci_high = 700;
  confidence = 300;
  cold_start = true;
}

abbrev pub kit : Tools
kit = record {
  casefold = λ s. s;
  normalize_name = λ s. s;
  hostname = λ url. if str_eq url "https://acme.dev/x" then some "acme.dev" else none;
  stable_hash = λ id s. s;
  title_case = λ s. s;
  round = λ n d. n / d;
  compute = scored;
  day = λ now. now / 86400;
}

abbrev pub opening_at : ℕ → CreationDraw
opening_at n = record {
  now = 1000 + n;
  company_id = 100 + n;
  opportunity_id = 200 + n;
  decision_sla_hours = 24;
}

abbrev item_draw : ℕ → ItemDraw
item_draw n = record {
  signal_id = 300 + n;
  job_id = 400 + n;
  rows = record { person_id = 500 + n; creation = opening_at n };
}

abbrev launch : NormalizedSignal
launch = record {
  kind = SignalKind.launch_post;
  external_id = none;
  url = some "https://acme.dev/x";
  title = some "Show HN: Acme";
  body = some "We launched.";
  company_name = none;
  stars = 0;
  observed_at = 900;
  strength = 700;
  identities = record { provider = "hackernews"; value = "ada"; confidence = 800 } ∷ [];
  content_hash = "h1";
}

abbrev hn : Source
hn = new_source 9 "hackernews" "hackernews"

abbrev hn_channel : SourcingChannel
hn_channel = new_channel 8 "hackernews" "hackernews"

abbrev no_tally : Tally
no_tally = record { ingested = 0; resolved = 0; child_job_ids = []; failures = [] }

abbrev pub key_of : ℕ → String
key_of id = "outbound-signal"

abbrev name_error : AppError → String × String
name_error e = ("AppError", e.message)

abbrev pub one_source : Connectors
one_source = record {
  enabled = λ key. str_eq key "hackernews";
  harvest = λ key text limit. ok (launch ∷ launch ∷ []);
}

abbrev pub source_draw : ℕ → SourceDraw
source_draw n = record { source_id = 9; channel_id = 8; clock = 2000; item = item_draw }

abbrev harvest_job : Job
harvest_job = record job { kind = "ingest.harvest" }

pub empty-Consistent : Consistent empty_db
unfolding count_where
empty-Consistent = (
  λ org company. omega arith,
  λ source hash observed. omega arith,
  (λ opportunity axis n. omega arith, λ opportunity n. omega arith),
)

process_harvest-Consistent_example :
    Consistent
      (request
        (process_harvest kit key_of name_error one_source 7 false source_draw 3000 harvest_job)
        empty_db).1
process_harvest-Consistent_example =
    process_harvest-Consistent kit key_of name_error one_source 7 false source_draw 3000 harvest_job
      empty_db empty-Consistent

-- The first of two like posts is taken: one opportunity, one signal, one job.
abbrev harvested_db : Db
harvested_db =
    (request (process_harvest kit key_of name_error one_source 7 false source_draw 3000 harvest_job)
      empty_db).1

harvest_takes_one :
    (length harvested_db.opportunities ≡ 1)
    × (length harvested_db.signals ≡ 1)
    × (length harvested_db.jobs ≡ 1)
    × (length harvested_db.companies ≡ 1)
unfolding process_harvest dolphin_vc.Base.find_where dolphin_vc.Base.select_where
    dolphin_vc.Base.update_where
harvest_takes_one = (refl, refl, refl, refl)

abbrev first_ingest : Result Tally × Conn Db
first_ingest =
    ingest_items kit key_of 7 item_draw 0 hn hn_channel (launch ∷ []) no_tally (connect empty_db)

first_tally : first_ingest ≡ (
  ok (record { ingested = 1; resolved = 1; child_job_ids = 400 ∷ []; failures = [] }),
  first_ingest.1,
)
unfolding ingest_items dolphin_vc.Base.find_where dolphin_vc.Base.select_where
first_tally = refl

-- Organisation 8 gets nothing of the post that organisation 7 has harvested.
ingest_again_example :
    ingest_items kit key_of 8
      (λ n. item_draw (n + 50))
      0
      hn
      hn_channel
      (launch ∷ [])
      no_tally
      first_ingest.1
    ≡ (ok no_tally, first_ingest.1)
ingest_again_example =
    ingest_again kit key_of hn 7 8 item_draw (λ n. item_draw (n + 50)) 0 0 hn_channel hn_channel
      (launch ∷ []) no_tally
      (record { ingested = 1; resolved = 1; child_job_ids = 400 ∷ []; failures = [] }) no_tally
      (connect empty_db) first_ingest.1 first_tally

worker-UniqueVersions_example :
    UniqueVersions
      (request
        (process_job tools draw describe
          (λ j. process_harvest kit key_of name_error one_source 7 false source_draw 3000 j >>= λ _.
            pure tt)
          50)
        db).1
worker-UniqueVersions_example =
    worker-UniqueVersions tools draw describe kit key_of name_error one_source (λ j. 7) false
      source_draw 3000 50 db empty-UniqueVersions
