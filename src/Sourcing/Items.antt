-- ===== src/Sourcing/Items.antt =====
-- The items of a harvest (`_process_harvest` of backend/app/services/pipeline.py, and what the
-- connectors of backend/app/services/connectors find): each is put in as a signal, unless there is one
-- like it, resolved and screened. `org` is `job.org_id`, which the handler that makes the job sets.
use dolphin_vc.Base.{
  ℕ, ◌+◌, String, Bool, ◌&&◌, Option, none, some, List, [], ◌∷◌, ◌++◌, ◌==◌, str_eq, find_where,
  update_where,
}
use dolphin_vc.Types.{SignalKind, JobStatus}
use dolphin_vc.Session.{Tx, pure, query, modify, ◌>>=◌, ◌>>◌}
use dolphin_vc.Records.{
  Db, Signal, Source, SourcingChannel, IdentityHint, Job, set_signals, set_channels, set_jobs,
}
use dolphin_vc.Sourcing.Names.{Tools}
use dolphin_vc.Sourcing.Signals.{ResolvedSignal, SignalDraw, resolve_outbound_signal, channel_is}

-- What a connector finds; its hash is SHA-256 of the rest.
pub record NormalizedSignal : Type 0 where
  pub kind : SignalKind
  pub external_id : Option String
  pub url : Option String
  pub title : Option String
  pub body : Option String
  pub company_name : Option String
  pub stars : ℕ
  pub observed_at : ℕ
  pub strength : ℕ
  pub identities : List IdentityHint
  pub content_hash : String

-- The ids that an item and a source draw, and the clock at their end.
pub record ItemDraw : Type 0 where
  pub signal_id : ℕ
  pub job_id : ℕ
  pub rows : SignalDraw

-- The counts, the jobs and the failures so far.
pub record Tally : Type 0 where
  pub ingested : ℕ
  pub resolved : ℕ
  pub child_job_ids : List ℕ
  pub failures : List (String × String)

-- The query for a signal that is there already.
abbrev pub same_signal : ℕ → String → ℕ → Signal → Bool
same_signal source hash observed s =
    s.source_id == source && (str_eq s.content_hash hash && s.observed_at == observed)

abbrev pub signal_of : ℕ → ℕ → ℕ → NormalizedSignal → Signal
signal_of id org source item = record {
  id = id;
  org_id = org;
  source_id = source;
  kind = item.kind;
  external_id = item.external_id;
  url = item.url;
  title = item.title;
  body = item.body;
  company_name = item.company_name;
  stars = item.stars;
  identity_hints = item.identities;
  content_hash = item.content_hash;
  person_id = none;
  company_id = none;
  strength = some item.strength;
  observed_at = item.observed_at;
}

-- The screening of the opportunity that a signal has led to.
abbrev pub screening_job : (ℕ → String) → ItemDraw → ℕ → ℕ → Job
screening_job signal_key draw org opportunity = record {
  id = draw.job_id;
  org_id = some org;
  kind = "screen";
  status = JobStatus.queued;
  target_type = some "opportunity";
  target_id = some opportunity;
  idempotency_key = some (signal_key draw.signal_id);
  progress = 0;
  current_step = none;
  input = record {
    opportunity_id = some opportunity;
    application_id = none;
    document_id = none;
    retry_of = none;
    signal_id = some draw.signal_id;
    is_public = none;
    query = none;
    limit = none;
    channels = none;
    memo_id = none;
    section = none;
    format = none;
  };
  result = none;
  error_code = none;
  error_message = none;
  attempts = 0;
  started_at = none;
  finished_at = none;
  heartbeat_at = none;
  created_at = draw.rows.creation.now;
}

module _ (tools : Tools) (signal_key : ℕ → String) (org : ℕ) where
  -- The screening of a candidate is put in, and counted.
  unfoldable pub queue_screening : ItemDraw → SourcingChannel → Tally → ResolvedSignal → Tx Db Tally
  queue_screening draw channel t candidate = do
    modify (set_jobs (λ js. js ++ screening_job signal_key draw org candidate.opportunity.id ∷ []))
    modify (
        set_channels (
          update_where (channel_is channel.id)
            (λ c. record c { discovered_count = c.discovered_count + 1 })))
    pure (record t {
      ingested = t.ingested + 1;
      resolved = t.resolved + 1;
      child_job_ids = t.child_job_ids ++ draw.job_id ∷ [];
    })

  -- A signal that is not there yet is put in, resolved and screened.
  unfoldable pub ingest_new :
      ItemDraw → Source → SourcingChannel → NormalizedSignal → Tally → Tx Db Tally
  unfolding resolve_outbound_signal queue_screening
  ingest_new draw source channel item t = do
    let signal = signal_of draw.signal_id org source.id item
    modify (set_signals (λ rows. rows ++ signal ∷ []))
    candidate ← resolve_outbound_signal tools draw.rows signal source.id (some channel)
    queue_screening draw channel t candidate

  unfoldable pub ingest_unless :
      Option Signal → ItemDraw → Source → SourcingChannel → NormalizedSignal → Tally → Tx Db Tally
  unfolding ingest_new
  ingest_unless (some duplicate) draw source channel item t = pure t
  ingest_unless none draw source channel item t = ingest_new draw source channel item t

  -- The loop over the items; `n` counts them.
  unfoldable pub ingest_items :
      (ℕ → ItemDraw) → ℕ → Source → SourcingChannel → List NormalizedSignal → Tally → Tx Db Tally
  unfolding ingest_unless
  ingest_items draw n source channel [] t = pure t
  ingest_items draw n source channel (item ∷ items) t = do
    duplicate ←
        query
          (λ db. find_where (same_signal source.id item.content_hash item.observed_at) db.signals)
    t' ← ingest_unless duplicate (draw n) source channel item t
    ingest_items draw (n + 1) source channel items t'
