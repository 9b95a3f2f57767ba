-- ===== src/Jobs/Worker.antt =====
-- The frame of `process_job` and `_step` (backend/app/services/pipeline.py), around the work that a
-- job does.
use dolphin_vc.Base.{ℕ, ◌+◌, String, Option, none, some, [], ◌∷◌, ◌++◌, if◌then◌else◌, find_where}
use dolphin_vc.Types.{JobStatus}
use dolphin_vc.Errors.{AppError, ok, err, refused_flush, is_refused_flush}
use dolphin_vc.Records.{AgentStep}
use dolphin_vc.Base.{Bool, ◌==◌, ◌&&◌, any_where}
use dolphin_vc.Session.{Tx, pure, query, modify, commit, catch, ◌>>=◌, ◌>>◌}
use dolphin_vc.Records.{Job, JobResult, Db}
use dolphin_vc.Jobs.Queue.{is_cancelled, job_is, save_job}

abbrev pub start : ℕ → Job → Job
start now j = record j {
  status = JobStatus.running;
  started_at = some now;
  attempts = j.attempts + 1;
  heartbeat_at = some now;
}

-- The job ended with the result: succeeded, or `partial` for a harvest with failures.
abbrev pub finish : JobStatus → ℕ → Option JobResult → Job → Job
finish status now result j = record j {
  status = status;
  progress = 10000;
  current_step = some "done";
  finished_at = some now;
  result = result;
}

abbrev pub succeed : ℕ → Option JobResult → Job → Job
succeed = finish JobStatus.succeeded

-- `describe` gives the name and the text of an exception, `type(exc).__name__.upper()` and
-- `str(exc)[:1000]`.
abbrev pub fail : (AppError → String × String) → ℕ → AppError → Job → Job
fail describe now e j = record j {
  status = JobStatus.failed;
  error_code = some (describe e).0;
  error_message = some (describe e).1;
  finished_at = some now;
}

abbrev pub beat : ℕ → String → ℕ → Job → Job
beat progress action now j = record j {
  progress = progress;
  current_step = some action;
  heartbeat_at = some now;
}

-- The rows that the unique constraint on the job and the number of an `AgentStep` refuses another of
-- (backend/app/db/models.py).
abbrev pub has_step : ℕ → ℕ → AgentStep → Bool
has_step job_id seq s = (s.job_id == job_id) && (s.seq == seq)

abbrev pub step_taken : ℕ → ℕ → Db → Bool
step_taken job_id seq db = any_where (has_step job_id seq) db.agent_steps

-- The commit after a step is added; its flush is refused if there was a step of the number, and
-- the session falls back to what was committed.
abbrev pub commit_step : Bool → Tx Db (Unit {0})
commit_step taken c =
    if taken
    then (err refused_flush, record c { working = c.committed })
    else (ok tt, record c { committed = c.working })

-- `_step`; the progress is in hundredths of a percent.
unfoldable pub step : ℕ → ℕ → String → ℕ → String → ℕ → Tx Db (Unit {0})
step job_id seq action progress message now = do
  taken ← query (step_taken job_id seq)
  modify (λ db. record db {
    agent_steps =
        db.agent_steps
        ++ record {
          job_id = job_id;
          seq = seq;
          agent = "pipeline";
          action = action;
          status = "succeeded";
          progress = progress;
          message = message;
        }
          ∷ [];
  })
  modify (save_job job_id (beat progress action now))
  commit_step taken

-- The handler of `process_job`. It does not roll back: after a refused flush its commit raises
-- (`PendingRollbackError`), and nothing of it is stored.
abbrev pub record_failure : (AppError → String × String) → ℕ → ℕ → AppError → Tx Db (Unit {0})
record_failure describe id later e c =
    if is_refused_flush e then (err refused_flush, record c { working = c.committed }) else (
      ok tt,
      record {
        committed = save_job id (fail describe later e) c.working;
        working = save_job id (fail describe later e) c.working;
      },
    )

module _ (describe : AppError → String × String) (body : Job → Tx Db (Unit {0})) where
  -- The job starts, does its work, and is marked failed if the work raises and the session still
  -- takes a commit; `now` and `later` are
  -- the clock at the start and at the failure.
  unfoldable pub supervise_found : Option Job → ℕ → ℕ → Tx Db (Unit {0})
  supervise_found none now later = pure tt
  supervise_found (some j) now later = if is_cancelled j.status then pure tt else do
    modify (save_job j.id (start now))
    commit
    catch (body (start now j)) (record_failure describe j.id later)

  unfoldable pub supervise : ℕ → ℕ → ℕ → Tx Db (Unit {0})
  unfolding supervise_found
  supervise job_id now later = do
    found ← query (λ db. find_where (job_is job_id) db.jobs)
    supervise_found found now later
