-- ===== src/Tests/Jobs.antt =====
-- Jobs at work: a replayed request, a worker whose work fails, and cancellations.
use dolphin_vc.Base.{◌⊎◌}
use dolphin_vc.Errors.{err, refused_flush, is_refused_flush}
use dolphin_vc.Jobs.Lifecycle.{worked}
use dolphin_vc.Jobs.Worker.{supervise}
use dolphin_vc.Base.{
  ℕ, some, ◌+◌, count_where, ◌≡◌, refl, String, true, false, none, [], ◌∷◌, arith, All, find_where,
}
use dolphin_vc.Types.{JobStatus, OpportunityOrigin}
use dolphin_vc.Errors.{AppError, ok, not_found_error}
use dolphin_vc.Session.{request, Tx, raise}
use dolphin_vc.Records.{empty_db, Opportunity, Job, JobInput, Db}
use dolphin_vc.Opportunities.Creation.{stub_company, new_opportunity}
use dolphin_vc.Jobs.Reaper.{is_failed, reap_stale_jobs_lem}
use dolphin_vc.Jobs.Queue.{
  retry_job, cancel_job, is_stale, reap_stale_jobs, create_job, JobRequest, new_job, start_job,
}
use dolphin_vc.Jobs.Idempotency.{start, start_once}
use dolphin_vc.Jobs.Cancellation.{
  JobEvent, taken, cancelling, retry_asked, starting, reaping, rows, after_events, cancelled_stays,
}
use dolphin_vc.Base.{List, update_where, select_where}
use dolphin_vc.Jobs.Lifecycle.{IsFailed, processed, failing_work_is_recorded}

abbrev no_input : JobInput
no_input = record {
  opportunity_id = none;
  application_id = none;
  document_id = none;
  retry_of = none;
  signal_id = none;
  is_public = none;
  query = none;
  limit = none;
  channels = none;
  memo_id = none;
  section = none;
  format = none;
}

abbrev deal : Opportunity
deal =
    new_opportunity
      (record { now = 10; company_id = 10; opportunity_id = 11; decision_sla_hours = 24 }) 7
      (stub_company 10 "Acme" "acme") OpportunityOrigin.manual none 10

abbrev ask : JobRequest
ask = record {
  org_id = 7;
  kind = "screen";
  target_type = "opportunity";
  target_id = 11;
  idempotency_key = "k";
  input = no_input;
}

abbrev db : Db
db = record empty_db { opportunities = deal ∷ []; jobs = new_job ask 20 40 ∷ [] }

abbrev again : JobRequest
again = record ask { idempotency_key = "k2" }

started : (start again 100 41 db).0 ≡ ok (41, true)
unfolding start_job find_where create_job
started = refl

start_once_example :
    start again 200 42 (start again 100 41 db).1 ≡ (ok (41, false), (start again 100 41 db).1)
start_once_example = start_once again 100 200 41 42 41 db (omega arith) (omega arith) started

abbrev describe : AppError → String × String
describe e = ("NOTFOUNDERROR", e.message)

abbrev failing : Job → Tx Db (Unit {0})
failing j = raise (not_found_error "Company was not found.")

failing_work_is_recorded_example :
    ((is_refused_flush (not_found_error "Company was not found.") ≡ false)
      × ((processed describe failing 40 100 200 db).0 ≡ ok tt)
      × All
          (IsFailed describe failing 40 100 200 db 40 (not_found_error "Company was not found."))
          (processed describe failing 40 100 200 db).1.jobs)
    ⊎ ((is_refused_flush (not_found_error "Company was not found.") ≡ true)
        × (processed describe failing 40 100 200 db ≡ (
          err refused_flush,
          (worked describe failing 40 100 200 db (new_job ask 20 40)).1.committed,
        )))
unfolding find_where
failing_work_is_recorded_example =
    failing_work_is_recorded describe failing 40 100 200 db (new_job ask 20 40)
      (not_found_error "Company was not found.") refl refl refl

abbrev cancelled_job : Job
cancelled_job = record (new_job ask 20 40) { status = JobStatus.cancelled }

abbrev cancelled_db : Db
cancelled_db = record db { jobs = cancelled_job ∷ [] }

abbrev retry_key : ℕ → ℕ → String
retry_key id attempts = "retry"

-- A worker comes too late, the organisation cancels again and wants a retry, the screening is
-- started anew, and the reaper runs.
abbrev requests : List JobEvent
requests =
    taken failing 100 200
    ∷ cancelling 7 40 210
    ∷ retry_asked 7 40 220 50 51
    ∷ starting again 230 52
    ∷ reaping 1000
    ∷ []

cancelled_stays_example :
    rows describe retry_key 40 (after_events describe retry_key 40 requests cancelled_db)
    ≡ cancelled_job ∷ []
unfolding select_where
cancelled_stays_example =
    cancelled_stays describe retry_key 40 requests cancelled_job cancelled_db refl refl
      (tt, (tt, (refl, (refl, (tt, tt)))))

-- The new job of the sequence is there beside it.
cancelled_and_new :
    count_where (λ (j : Job). true) (after_events describe retry_key 40 requests cancelled_db).jobs
    ≡ 2
unfolding start_job create_job cancel_job retry_job supervise reap_stale_jobs find_where count_where
    update_where select_where
cancelled_and_new = refl

abbrev lost_db : Db
lost_db = record db {
  jobs =
      record (new_job ask 20 40) { status = JobStatus.running; heartbeat_at = some 100 }
      ∷ record (new_job ask 20 41) { status = JobStatus.running; heartbeat_at = some 150 }
      ∷ [];
}

-- At 200 the first job is lost and the second is not.
reap_stale_jobs_lem_example :
    let (r, db') = request (reap_stale_jobs 200) lost_db in
    (r ≡ ok (count_where (is_stale 200) lost_db.jobs))
    × (count_where (is_stale 200) db'.jobs ≡ 0)
    × (count_where is_failed db'.jobs
        ≡ count_where is_failed lost_db.jobs + count_where (is_stale 200) lost_db.jobs)
reap_stale_jobs_lem_example = reap_stale_jobs_lem 200 lost_db
