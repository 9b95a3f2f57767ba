-- ===== src/Sourcing/Harvest.antt =====
-- `_process_harvest` of backend/app/services/pipeline.py. The connectors (backend/app/services/
-- connectors), which ask other services, are a parameter: whether one is enabled, and what it finds
-- or raises; `describe` gives the name and the text of an exception.
use dolphin_vc.Jobs.Worker.{step_taken, commit_step}
use dolphin_vc.Sourcing.Items.{ingest_items, Tally, NormalizedSignal, ItemDraw}
use dolphin_vc.Base.{
  ℕ, ◌+◌, ◌*◌, String, Bool, not, Option, none, some, List, [], ◌∷◌, ◌++◌, ◌==◌, if◌then◌else◌,
  str_eq, find_where, select_where, update_where, any_where, length, min, max,
}
use Prim.Native.String.{◌++◌ as append}
use dolphin_vc.Base.Text.{first_chars}
use dolphin_vc.Types.{SourceTier, SourceStatus, JobStatus}
use dolphin_vc.Errors.{AppError, Result, ok, err}
use dolphin_vc.Session.{Tx, pure, raise, query, modify, commit, catch, ◌>>=◌, ◌>>◌}
use dolphin_vc.Records.{
  JobResult, Db, Source, SourcingChannel, Job, harvested, set_sources, set_channels, set_jobs,
  set_agent_steps,
}
use dolphin_vc.Jobs.Queue.{job_is}
use dolphin_vc.Jobs.Worker.{finish}
use dolphin_vc.Sourcing.Names.{Tools, text_or}

pub record Connectors : Type 0 where
  pub enabled : String → Bool
  pub harvest : String → String → ℕ → Result (List NormalizedSignal)

pub record SourceDraw : Type 0 where
  pub source_id : ℕ
  pub channel_id : ℕ
  pub clock : ℕ
  pub item : ℕ → ItemDraw

abbrev connector_types : List String
connector_types = "github" ∷ "hackernews" ∷ "arxiv" ∷ "tavily" ∷ []

abbrev requested_keys : Option (List String) → List String
requested_keys none = connector_types
requested_keys (some requested) =
    select_where (λ key. any_where (str_eq key) connector_types) requested

abbrev pub number_or : Option ℕ → ℕ → ℕ
number_or none fallback = fallback
number_or (some n) fallback = if n == 0 then fallback else n

abbrev pub new_source : ℕ → String → String → Source
new_source id key display_name = record {
  id = id;
  key = key;
  display_name = display_name;
  tier = SourceTier.aggregator;
  status = SourceStatus.active;
  reliability = 650;
  last_ok_at = none;
  last_error_at = none;
  last_error = none;
}

abbrev pub new_channel : ℕ → String → String → SourcingChannel
new_channel id key label = record {
  id = id;
  key = key;
  label = label;
  kind = "source";
  discovered_count = 0;
  advanced_count = 0;
}

abbrev source_is : ℕ → Source → Bool
source_is id s = s.id == id

abbrev pub failed_at : String → String → Tally → Tally
failed_at key reason t = record t { failures = t.failures ++ (key, reason) ∷ [] }

abbrev pub has_failed : String → Tally → Bool
has_failed key t = any_where (λ (f : String × String). str_eq f.0 key) t.failures

abbrev pub source_named : String → Db → Option Source
source_named key db = find_where (λ (s : Source). str_eq s.key key) db.sources

abbrev pub channel_named : String → Db → Option SourcingChannel
channel_named key db = find_where (λ (c : SourcingChannel). str_eq c.key key) db.channels

abbrev pub source_or : Option Source → ℕ → String → String → Tx Db Source
source_or (some s) id key display_name = pure s
source_or none id key display_name = do
  modify (set_sources (λ ss. ss ++ new_source id key display_name ∷ []))
  pure (new_source id key display_name)

abbrev pub channel_or : Option SourcingChannel → ℕ → String → String → Tx Db SourcingChannel
channel_or (some c) id key label = pure c
channel_or none id key label = do
  modify (set_channels (λ cs. cs ++ new_channel id key label ∷ []))
  pure (new_channel id key label)

module _ (tools : Tools) (signal_key : ℕ → String) (describe : AppError → String × String)
    (connectors : Connectors) (org : ℕ) where
  abbrev source_ok : ℕ → Source → Source
  source_ok now s = record s { status = SourceStatus.active; last_ok_at = some now }

  abbrev source_degraded : ℕ → AppError → Source → Source
  source_degraded now e s = record s {
    status = SourceStatus.degraded;
    last_error_at = some now;
    last_error = some (first_chars 500 (describe e).1);
  }

  -- The items of a source, once it is there.
  unfoldable pub close_source : SourceDraw → Source → Tally → Tx Db Tally
  close_source draw source t = do
    modify (set_sources (update_where (source_is source.id) (source_ok draw.clock)))
    commit
    pure t

  unfoldable pub harvest_channel :
      SourceDraw → Source → Tally → List NormalizedSignal → SourcingChannel → Tx Db Tally
  unfolding ingest_items close_source
  harvest_channel draw source t items channel = do
    t' ← ingest_items tools signal_key org draw.item 0 source channel items t
    close_source draw source t'

  unfoldable pub harvest_items :
      SourceDraw → String → Tally → List NormalizedSignal → Source → Tx Db Tally
  unfolding harvest_channel
  harvest_items draw key t items source = do
    found ← query (channel_named key)
    channel ← channel_or found draw.channel_id key source.display_name
    harvest_channel draw source t items channel

  -- What the `try` of one source does with what its connector has found.
  unfoldable pub harvest_found :
      SourceDraw → String → Option Source → Tally → Result (List NormalizedSignal) → Tx Db Tally
  unfolding harvest_items
  harvest_found draw key known t (err e) = raise e
  harvest_found draw key known t (ok items) = do
    source ← source_or known draw.source_id key (tools.title_case key)
    harvest_items draw key t items source

  -- What its `except` does.
  unfoldable pub degrade : SourceDraw → String → Option Source → Tally → AppError → Tx Db Tally
  unfolding first_chars
  degrade draw key none t e = pure (failed_at key (describe e).0 t)
  degrade draw key (some source) t e = do
    modify (set_sources (update_where (source_is source.id) (source_degraded draw.clock e)))
    commit
    pure (failed_at key (describe e).0 t)

  unfoldable pub harvest_step : ℕ → ℕ → ℕ → String → Tally → Tx Db Tally
  harvest_step job_id seq total key t = do
    taken ← query (step_taken job_id seq)
    modify (
        set_agent_steps (λ steps.
          steps
          ++ record {
            job_id = job_id;
            seq = seq;
            agent = "harvester";
            action = append "ingest." key;
            status = if has_failed key t then "degraded" else "succeeded";
            progress = tools.round (seq * 9000) (max 1 total);
            message = append "Harvested source " (append key ".");
          }
            ∷ []))
    commit_step taken
    pure t

  -- The round of one source.
  unfoldable pub harvest_source : SourceDraw → ℕ → ℕ → ℕ → String → ℕ → String → Tally → Tx Db Tally
  unfolding harvest_found degrade harvest_step
  harvest_source draw job_id seq total text limit key t = do
    known ← query (source_named key)
    if not (connectors.enabled key) then pure (failed_at key "no_credentials" t) else do
      t' ←
          catch (harvest_found draw key known t (connectors.harvest key text limit))
            (degrade draw key known t)
      harvest_step job_id seq total key t'

  -- The loop over the sources, from number `seq` on.
  unfoldable pub harvest_sources :
      (ℕ → SourceDraw) → ℕ → ℕ → String → ℕ → ℕ → List String → Tally → Tx Db Tally
  unfolding harvest_source
  harvest_sources draw job_id total text limit seq [] t = pure t
  harvest_sources draw job_id total text limit seq (key ∷ keys) t = do
    t' ← harvest_source (draw seq) job_id seq total text limit key t
    harvest_sources draw job_id total text limit (seq + 1) keys t'

  abbrev pub ended : Tally → JobStatus
  ended t = elim t.failures [ [] ↦ JobStatus.succeeded | _ ↦ JobStatus.partial ]

  abbrev pub harvest_keys : Bool → Job → List String
  harvest_keys demo_mode job = if demo_mode then [] else requested_keys job.input.channels

  abbrev pub opening_tally : Bool → Tally
  opening_tally demo_mode = record {
    ingested = 0;
    resolved = 0;
    child_job_ids = [];
    failures = if demo_mode then ("all", "network harvesting disabled in DEMO_MODE") ∷ [] else [];
  }

  abbrev harvest_result : Tally → Option JobResult
  harvest_result t = some (harvested t.ingested t.resolved t.child_job_ids t.failures)

  -- The end of a harvest.
  unfoldable pub close_harvest : ℕ → Job → Tally → Tx Db (List ℕ)
  close_harvest now job t = do
    modify (set_jobs (update_where (job_is job.id) (finish (ended t) now (harvest_result t))))
    commit
    pure t.child_job_ids

  -- `_process_harvest`
  unfoldable pub process_harvest : Bool → (ℕ → SourceDraw) → ℕ → Job → Tx Db (List ℕ)
  unfolding harvest_sources close_harvest any_where
  process_harvest demo_mode draw now job = do
    let keys = harvest_keys demo_mode job
    t ←
        harvest_sources draw job.id (length keys) (text_or job.input.query "AI startup")
          (min 100 (number_or job.input.limit 25)) 1 keys (opening_tally demo_mode)
    close_harvest now job t
