-- ===== src/Jobs/Queue.antt =====
-- `create_job` and `reap_stale_jobs` of backend/app/services/jobs.py, `_start_job` of
-- backend/app/routers/opportunities.py, `cancel_job` and `retry_job` of backend/app/routers/jobs.py.
use dolphin_vc.Base.{
  ℕ, ◌+◌, ◌*◌, String, Bool, true, false, not, ◌&&◌, Option, none, some, List, [], ◌∷◌, ◌++◌, ltb,
  leb, ◌==◌, opt_is, if◌then◌else◌, is_some, str_eq, find_where, select_where, update_where, length,
}
use dolphin_vc.Types.{JobStatus}
use dolphin_vc.Errors.{ErrorCode, app_error, not_found_error}
use dolphin_vc.Session.{Tx, pure, query, modify, commit, or_raise, raise_if, ◌>>=◌, ◌>>◌}
use dolphin_vc.Records.{Application, Job, JobInput, Db, set_jobs}
use dolphin_vc.Opportunities.Commands.{get_opportunity, key_required}

abbrev is_running : JobStatus → Bool
is_running JobStatus.running = true
is_running _ = false

abbrev pub is_cancelled : JobStatus → Bool
is_cancelled JobStatus.cancelled = true
is_cancelled _ = false

-- `job.status in {SUCCEEDED, FAILED, CANCELLED}`
abbrev pub is_completed : JobStatus → Bool
is_completed JobStatus.succeeded = true
is_completed JobStatus.failed = true
is_completed JobStatus.cancelled = true
is_completed _ = false

-- `old.status in {FAILED, PARTIAL}`
abbrev pub is_retryable : JobStatus → Bool
is_retryable JobStatus.failed = true
is_retryable JobStatus.partial = true
is_retryable _ = false

-- What a caller asks `create_job` for.
pub record JobRequest : Type 0 where
  pub org_id : ℕ
  pub kind : String
  pub target_type : String
  pub target_id : ℕ
  pub idempotency_key : String
  pub input : JobInput

abbrev key_is : Option String → String → Bool
key_is none key = false
key_is (some k) key = str_eq k key

-- The query for an earlier job of the same request, of the last 24 hours.
abbrev pub same_request : JobRequest → ℕ → Job → Bool
same_request r now j =
    opt_is j.org_id r.org_id
    && (str_eq j.kind r.kind
        && (opt_is j.target_id r.target_id
            && (key_is j.idempotency_key r.idempotency_key && leb now (j.created_at + 24 * 3600))))

-- The row that `create_job` inserts; what its columns default to included.
abbrev pub new_job : JobRequest → ℕ → ℕ → Job
new_job r now id = record {
  id = id;
  org_id = some r.org_id;
  kind = r.kind;
  status = JobStatus.queued;
  target_type = some r.target_type;
  target_id = some r.target_id;
  idempotency_key = some r.idempotency_key;
  progress = 0;
  current_step = none;
  input = r.input;
  result = none;
  error_code = none;
  error_message = none;
  attempts = 0;
  started_at = none;
  finished_at = none;
  heartbeat_at = none;
  created_at = now;
}

create_unless : Option Job → JobRequest → ℕ → ℕ → Tx Db (Job × Bool)
create_unless (some existing) r now id = pure (existing, true)
create_unless none r now id = do
  modify (set_jobs (λ js. js ++ new_job r now id ∷ []))
  pure (new_job r now id, false)

-- The job of the request, and whether it was there before.
unfoldable pub create_job : JobRequest → ℕ → ℕ → Tx Db (Job × Bool)
unfolding create_unless
create_job r now id = do
  existing ← query (λ db. find_where (same_request r now) db.jobs)
  create_unless existing r now id

-- The latest of the applications; of two at one instant, the first.
unfoldable pub latest : List Application → Option Application
latest [] = none
latest (a ∷ as') = elim (latest as') [
  | none ↦ some a
  | some b ↦ if ltb a.received_at b.received_at then some b else some a
]

-- A screening job takes the deck of the latest application along.
abbrev with_deck : Option Application → JobInput → JobInput
with_deck none input = input
with_deck (some a) input =
    if is_some a.deck_document_id
    then record input { document_id = a.deck_document_id; application_id = some a.id }
    else input

abbrev pub screening_input : JobRequest → Db → JobInput
screening_input r db =
    if str_eq r.kind "screen"
    then with_deck
        (latest (select_where (λ a. opt_is a.opportunity_id r.target_id) db.applications)) r.input
    else r.input

-- `_start_job`: the job, and whether it is dispatched; a replayed one is not.
unfoldable pub start_job : JobRequest → ℕ → ℕ → Tx Db (ℕ × Bool)
unfolding get_opportunity
start_job r now id = do
  raise_if (str_eq r.idempotency_key "") key_required
  get_opportunity r.org_id r.target_id
  input ← query (screening_input r)
  out ← create_job (record r { input = input }) now id
  commit
  pure (out.0.id, not out.1)

abbrev pub owned_job : ℕ → ℕ → Job → Bool
owned_job org_id id j = (j.id == id) && opt_is j.org_id org_id

-- `_job`
unfoldable pub get_job : ℕ → ℕ → Tx Db Job
get_job org_id id = do
  found ← query (λ db. find_where (owned_job org_id id) db.jobs)
  or_raise found (not_found_error "Job was not found.")

abbrev pub job_is : ℕ → Job → Bool
job_is id j = j.id == id

abbrev pub save_job : ℕ → (Job → Job) → Db → Db
save_job id g = set_jobs (update_where (job_is id) g)

abbrev pub cancel : ℕ → Job → Job
cancel now j = record j { status = JobStatus.cancelled; finished_at = some now }

unfoldable pub cancel_job : ℕ → ℕ → ℕ → Tx Db (Unit {0})
unfolding get_job
cancel_job org_id id now = do
  j ← get_job org_id id
  raise_if (is_completed j.status)
      (app_error ErrorCode.unprocessable "Completed jobs cannot be cancelled." 422)
  modify (save_job j.id (cancel now))
  commit

abbrev pub id_or : Option ℕ → ℕ → ℕ
id_or none d = d
id_or (some a) d = a

abbrev pub text_or : Option String → String → String
text_or none d = d
text_or (some s) d = if str_eq s "" then d else s

-- `retry_job`; the key of an old job's retry is a text of its id and its attempts. The new job is
-- dispatched, also where it was there before.
unfoldable pub retry_job : (ℕ → ℕ → String) → ℕ → ℕ → ℕ → ℕ → ℕ → Tx Db ℕ
unfolding get_job
retry_job retry_key org_id id now new_id new_target = do
  old ← get_job org_id id
  raise_if (not (is_retryable old.status))
      (app_error ErrorCode.unprocessable "Only failed or partial jobs can be retried." 422)
  out ←
      create_job
        (record {
          org_id = org_id;
          kind = old.kind;
          target_type = text_or old.target_type "unknown";
          target_id = id_or old.target_id new_target;
          idempotency_key = retry_key old.id old.attempts;
          input = record (old.input) { retry_of = some old.id };
        })
        now new_id
  commit
  pure out.0.id

abbrev is_older : Option ℕ → ℕ → Bool
is_older none t = false
is_older (some h) t = ltb (h + 90) t

-- A running job whose last heartbeat is more than 90 seconds ago.
abbrev pub is_stale : ℕ → Job → Bool
is_stale now j = is_running j.status && is_older j.heartbeat_at now

abbrev pub lose : ℕ → Job → Job
lose now j = record j {
  status = JobStatus.failed;
  error_code = some "WORKER_LOST";
  error_message = some "Worker heartbeat was lost. The job can be retried.";
  finished_at = some now;
}

unfoldable pub reap_stale_jobs : ℕ → Tx Db ℕ
reap_stale_jobs now = do
  stale ← query (λ db. select_where (is_stale now) db.jobs)
  modify (set_jobs (update_where (is_stale now) (lose now)))
  commit
  pure (length stale)
