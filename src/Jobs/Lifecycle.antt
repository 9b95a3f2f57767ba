-- ===== src/Jobs/Lifecycle.antt =====
-- What the frame of a job leaves in the database (`process_job` of
-- backend/app/services/pipeline.py).
use dolphin_vc.Base.{refl}
use dolphin_vc.Errors.{is_refused_flush, refused_flush}
use dolphin_vc.Base.{true, Bool-cases, if◌then◌else◌, ◌∙◌}
use dolphin_vc.Base.{
  ℕ, ◌≡◌, ap, ◌⊎◌, inl, inr, String, false, none, some, List, [], ◌∷◌, arith, All, find_where,
  update_where,
}
use dolphin_vc.Types.{JobStatus}
use dolphin_vc.Errors.{AppError, Result, ok, err}
use dolphin_vc.Session.{Tx, Conn, connect, request}
use dolphin_vc.Records.{Job, Db}
use dolphin_vc.Jobs.Queue.{is_cancelled, job_is, save_job}
use dolphin_vc.Jobs.Worker.{start, fail, supervise}

module _ (describe : AppError → String × String) (body : Job → Tx Db (Unit {0})) where
  module _ (id now later : ℕ) (db : Db) where
    -- If the row is the job's, it is marked failed.
    abbrev pub IsFailed : ℕ → AppError → Job → Type 0
    IsFailed k e x =
        x.id ≡ k
        → (x.status ≡ JobStatus.failed)
          × (x.finished_at ≡ some later)
          × (x.error_code ≡ some (describe e).0)

    abbrev pub processed : Result (Unit {0}) × Db
    processed = request (supervise describe body id now later) db

    -- A job that is missing, or was cancelled before a worker took it, is left alone, and its work
    -- is not done.
    pub cancelled_before_start :
        ((find_where (job_is id) db.jobs ≡ none)
          ⊎ ((j : Job) × (find_where (job_is id) db.jobs ≡ some j)
              × (j.status ≡ JobStatus.cancelled)))
        → processed ≡ (ok tt, db)
    unfolding supervise
    cancelled_before_start (inl missing) = ground arith
    cancelled_before_start (inr (j, found, gone)) = ground arith

    fail-IsFailed :
        (k : ℕ) (e : AppError) (l : List Job)
        → All (IsFailed k e) (update_where (job_is k) (fail describe later e) l)
    unfolding update_where
    fail-IsFailed k e [] = tt
    fail-IsFailed k e (x ∷ l) = (λ same. ground arith, fail-IsFailed k e l)

    -- What the work was given, and how it ended.
    abbrev pub worked : Job → Result (Unit {0}) × Conn Db
    worked j = body (start now j) (connect (save_job j.id (start now) db))

    failed_state :
        (j : Job) (e : AppError)
        → find_where (job_is id) db.jobs ≡ some j
        → is_cancelled j.status ≡ false
        → (worked j).0 ≡ err e
        → processed ≡ (
            if is_refused_flush e
            then (err refused_flush, (worked j).1.committed)
            else (ok tt, save_job j.id (fail describe later e) (worked j).1.working))
    unfolding supervise
    failed_state j e found live raised = elim (Bool-cases (is_refused_flush e)) [
      | inl refused ↦ ground arith
      | inr lives ↦ ground arith
    ]

    -- What becomes of a job that is there and not cancelled, and whose work raises, whatever the
    -- work wrote before. After an exception that leaves the session able to commit, the row is
    -- marked failed in the database, with the exception's name and the time, and the worker itself
    -- ends without an error. After a refused flush nothing is recorded: the database is as the work
    -- committed it last, and the worker raises.
    pub failing_work_is_recorded :
        (j : Job) (e : AppError)
        → find_where (job_is id) db.jobs ≡ some j
        → is_cancelled j.status ≡ false
        → (worked j).0 ≡ err e
        → ((is_refused_flush e ≡ false)
            × (processed.0 ≡ ok tt)
            × All (IsFailed j.id e) processed.1.jobs)
          ⊎ ((is_refused_flush e ≡ true)
              × (processed ≡ (err refused_flush, (worked j).1.committed)))
    failing_work_is_recorded j e found live raised = elim (Bool-cases (is_refused_flush e)) [
      | inl refused ↦ inr (refused, failed_state j e found live raised ∙ rw refused refl)
      | inr lives ↦
          let state : processed
              ≡ (ok tt, save_job j.id (fail describe later e) (worked j).1.working) =
            failed_state j e found live raised ∙ rw lives refl in
          inl (
            lives,
            ap (λ (x : Result (Unit {0}) × Db). x.0) state,
            rw (ap (λ (x : Result (Unit {0}) × Db). x.1) state) (fail-IsFailed j.id e _),
          )
    ]
