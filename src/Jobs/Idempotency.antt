-- ===== src/Jobs/Idempotency.antt =====
-- Idempotency keys of jobs (`create_job` of backend/app/services/jobs.py, `_start_job` of
-- backend/app/routers/opportunities.py).
use text.Mathlib.TextPositions.{eq_refl}
use dolphin_vc.Base.{
  ℕ, ◌+◌, ◌≤◌, ◌≡◌, inl, inr, Bool, true, false, none, some, [], ◌∷◌, ◌++◌, arith, str_eq,
  find_where, Option-cases, ==_refl, find_where-insert,
}
use dolphin_vc.Errors.{Result, ok}
use dolphin_vc.Session.{request}
use dolphin_vc.Records.{Job, JobInput, Db, Opportunity}
use dolphin_vc.Opportunities.Commands.{find_opportunity}
use dolphin_vc.Jobs.Queue.{
  JobRequest, same_request, new_job, screening_input, create_job, start_job,
}

-- A job that is within the window later was within it before.
same_request_earlier :
    (r : JobRequest) (now now' : ℕ)
    → now ≤ now'
    → (j : Job) → same_request r now' j ≡ true
    → same_request r now j ≡ true
same_request_earlier r now now' h j e = ground arith

same_request-new_job :
    (r : JobRequest) (input : JobInput) (now now' id : ℕ)
    → now' ≤ now + 86400
    → same_request r now' (new_job (record r { input = input }) now id) ≡ true
same_request-new_job r input now now' id h =
    ground (arith, ==_refl r.org_id, ==_refl r.target_id, eq_refl r.kind, eq_refl r.idempotency_key)

module _ (r : JobRequest) (now id : ℕ) (db : Db) where
  abbrev pub start : Result (ℕ × Bool) × Db
  start = request (start_job r now id) db

  -- A request that dispatches a job has inserted it, as there was none of the same request.
  start_trace :
      (n : ℕ)
      → start.0 ≡ ok (n, true)
      → (o : Opportunity) × (find_opportunity r.org_id r.target_id db ≡ some o)
        × (str_eq r.idempotency_key "" ≡ false)
        × (find_where (same_request r now) db.jobs ≡ none)
        × (n ≡ id)
        × (start.1 ≡ record db {
          jobs = db.jobs ++ new_job (record r { input = screening_input r db }) now id ∷ [];
        })
  unfolding start_job create_job
  start_trace n h = elim (Option-cases (find_opportunity r.org_id r.target_id db)) [
    | inl missing ↦ absurd (ground arith)
    | inr (o, found) ↦ elim (Option-cases (find_where (same_request r now) db.jobs)) [
      | inl new ↦ (o, found, ground arith, new, ground arith, ground arith)
      | inr (j, old) ↦ absurd (ground arith)
    ]
  ]

  start_replay :
      (o : Opportunity) (j : Job)
      → find_opportunity r.org_id r.target_id db ≡ some o
      → str_eq r.idempotency_key "" ≡ false
      → find_where (same_request r now) db.jobs ≡ some j
      → start ≡ (ok (j.id, false), db)
  unfolding start_job create_job
  start_replay o j found named old = ground arith

-- Within 24 hours of a request that dispatched a job, the same request, as the next one on the
-- database, names the same job, does not dispatch it again and changes nothing.
pub start_once :
    (r : JobRequest) (now now' id id' n : ℕ) (db : Db)
    → now ≤ now'
    → now' ≤ now + 86400
    → (start r now id db).0 ≡ ok (n, true)
    → start r now' id' (start r now id db).1 ≡ (ok (n, false), (start r now id db).1)
start_once r now now' id id' n db later within h =
    let (o, found, named, new, same, written) = start_trace r now id db n h in
    let job = new_job (record r { input = screening_input r db }) now id in
    rw (written, same)
      (start_replay r now' id' (record db { jobs = db.jobs ++ job ∷ [] }) o job found named
        (find_where-insert (same_request r now) (same_request r now') db.jobs job
          (same_request_earlier r now now' later) new
          (same_request-new_job r (screening_input r db) now now' id within)))
