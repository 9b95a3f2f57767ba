-- ===== src/Jobs/Cancellation.antt =====
-- A cancelled job among the requests for jobs: the worker's taking of the job
-- (backend/app/services/pipeline.py), `cancel_job` and `retry_job` of backend/app/routers/jobs.py,
-- `_start_job` of backend/app/routers/opportunities.py and the reaper of
-- backend/app/services/jobs.py.
use dolphin_vc.Opportunities.Commands.{find_opportunity, get_opportunity}
use dolphin_vc.Jobs.Worker.{supervise}
use dolphin_vc.Jobs.Queue.{
  is_retryable, same_request, screening_input, id_or, text_or, save_job, new_job, cancel,
  is_completed, owned_job, lose, is_stale, job_is, create_job, start_job, retry_job,
  reap_stale_jobs, cancel_job, JobRequest,
}
use dolphin_vc.Base.{
  find_where-holds, str_eq, refl, ◌⊎◌, inl, inr, false, true, Bool-cases, inr, inl, arith, ◌∙◌,
  some, change, Option-cases, All, true, map, false, ap, Bool, ◌≡◌, ◌==◌, update_where, find_where,
  List, select_where,
}
use Prim.Native.Nat.{ℕ}
use dolphin_vc.Session.{request, Tx}
use Prim.Native.String.{[], ◌∷◌, String}
use dolphin_vc.Records.{Db, Job}
use dolphin_vc.Errors.{Result, AppError}
use dolphin_vc.Base.{List, [], ◌∷◌, ◌++◌, some, String}
use dolphin_vc.Types.{JobStatus}
use dolphin_vc.Jobs.Lifecycle.{cancelled_before_start}
use dolphin_vc.Errors.{Result}

-- A request for jobs, with what it draws: the ids of new rows and the clock. A worker that takes
-- the job may have any work.
pub data JobEvent : Type 0 where
  taken : (Job → Tx Db (Unit {0})) → ℕ → ℕ → JobEvent
  cancelling : ℕ → ℕ → ℕ → JobEvent
  retry_asked : ℕ → ℕ → ℕ → ℕ → ℕ → JobEvent
  starting : JobRequest → ℕ → ℕ → JobEvent
  reaping : ℕ → JobEvent

module _ (describe : AppError → String × String) (retry_key : ℕ → ℕ → String) (id : ℕ) where
  -- The database after a request; workers take the job of the id.
  abbrev pub after_event : JobEvent → Db → Db
  after_event (taken body now later) db = (request (supervise describe body id now later) db).1
  after_event (cancelling org_id other now) db = (request (cancel_job org_id other now) db).1
  after_event (retry_asked org_id other now new_id new_target) db =
      (request (retry_job retry_key org_id other now new_id new_target) db).1
  after_event (starting r now new_id) db = (request (start_job r now new_id) db).1
  after_event (reaping now) db = (request (reap_stale_jobs now) db).1

  abbrev pub after_events : List JobEvent → Db → Db
  after_events [] db = db
  after_events (e ∷ es) db = after_events es (after_event e db)

  -- The request draws another id for a new job.
  abbrev pub IsOther : JobEvent → Type 0
  IsOther (retry_asked org_id other now new_id new_target) = (new_id == id) ≡ false
  IsOther (starting r now new_id) = (new_id == id) ≡ false
  IsOther _ = Unit

  -- The rows of the job: its own, and no other.
  abbrev pub rows : Db → List Job
  rows db = select_where (job_is id) db.jobs

  select-find :
      (p : Job → Bool) (l : List Job) (j x : Job)
      → ((y : Job) → p y ≡ true → job_is id y ≡ true)
      → All (λ z. z ≡ j) (select_where (job_is id) l)
      → find_where p l ≡ some x
      → x ≡ j
  unfolding select_where find_where
  select-find p [] j x h one found = absurd (ground arith)
  select-find p (y ∷ l) j x h one found = ground (arith, h y, select-find p l j x h)

  select-update :
      (q : Job → Bool) (g : Job → Job) (l : List Job)
      → ((y : Job) → (g y).id ≡ y.id)
      → select_where (job_is id) (update_where q g l)
        ≡ map (change q g) (select_where (job_is id) l)
  unfolding select_where update_where
  select-update q g [] same = refl
  select-update q g (y ∷ l) same = ground (arith, same y, select-update q g l same)

  select-insert :
      (l : List Job) (x : Job)
      → (x.id == id) ≡ false
      → select_where (job_is id) (l ++ x ∷ []) ≡ select_where (job_is id) l
  unfolding select_where
  select-insert [] x other = ground arith
  select-insert (y ∷ l) x other = ground (arith, select-insert l x other)

  found_of_rows :
      (l : List Job) (j : Job)
      → select_where (job_is id) l ≡ j ∷ []
      → find_where (job_is id) l ≡ some j
  unfolding select_where find_where
  found_of_rows [] j one = absurd (ground arith)
  found_of_rows (y ∷ l) j one = ground (arith, found_of_rows l j)

  -- The job has one row, which is cancelled.
  abbrev IsGone : Job → Db → Type 0
  IsGone j db = (rows db ≡ j ∷ []) × (j.status ≡ JobStatus.cancelled)

  taken_lem :
      (body : Job → Tx Db (Unit {0})) (now later : ℕ) (j : Job) (db : Db)
      → IsGone j db
      → (request (supervise describe body id now later) db).1 ≡ db
  taken_lem body now later j db (one, gone) =
      ap (λ (r : Result (Unit {0}) × Db). r.1)
        (cancelled_before_start describe body id now later db
          (inr (j, found_of_rows db.jobs j one, gone)))

  -- What a request on the job's id finds is the job's row.
  same_row :
      (org_id other : ℕ) (db : Db) (j x : Job)
      → rows db ≡ j ∷ []
      → find_where (owned_job org_id other) db.jobs ≡ some x
      → (j.id == x.id) ≡ true
      → x ≡ j
  same_row org_id other db j x one found same =
      let id_is : job_is id j ≡ true =
        find_where-holds (job_is id) db.jobs j (found_of_rows db.jobs j one) in
      let there : owned_job org_id other x ≡ true =
        find_where-holds (owned_job org_id other) db.jobs x found in
      let other_is : other ≡ id = ground arith in
      select-find (owned_job org_id other) db.jobs j x (λ y h. ground arith) (rw one (refl, tt))
        found

  cancelling_lem :
      (org_id other now : ℕ) (j : Job) (db : Db)
      → IsGone j db
      → rows (request (cancel_job org_id other now) db).1 ≡ j ∷ []
  unfolding cancel_job
  cancelling_lem org_id other now j db (one, gone) =
      let after = (request (cancel_job org_id other now) db).1 in
      elim (Option-cases (find_where (owned_job org_id other) db.jobs)) [
        | inl missing ↦ let kept : after ≡ db = ground arith in ap rows kept ∙ one
        | inr (x, found) ↦ elim (Bool-cases (is_completed x.status)) [
          | inl over ↦ let kept : after ≡ db = ground arith in ap rows kept ∙ one
          | inr live ↦
              let written : after ≡ save_job x.id (cancel now) db = ground arith in
              let apart : (j.id == x.id) ≡ false = elim (Bool-cases (j.id == x.id)) [
                | inl same ↦ absurd (ground (arith, same_row org_id other db j x one found, live))
                | inr differs ↦ differs
              ] in
              ap rows written
              ∙ select-update (job_is x.id) (cancel now) db.jobs (λ y. refl)
              ∙ ap (map (change (job_is x.id) (cancel now))) one
              ∙ rw apart refl
        ]
      ]

  reaping_lem :
      (now : ℕ) (j : Job) (db : Db)
      → IsGone j db
      → rows (request (reap_stale_jobs now) db).1 ≡ j ∷ []
  unfolding reap_stale_jobs
  reaping_lem now j db (one, gone) =
      select-update (is_stale now) (lose now) db.jobs (λ y. refl)
      ∙ ap (map (change (is_stale now) (lose now))) one
      ∙ rw gone refl

  starting_lem :
      (r : JobRequest) (now new_id : ℕ) (j : Job) (db : Db)
      → (new_id == id) ≡ false
      → IsGone j db
      → rows (request (start_job r now new_id) db).1 ≡ j ∷ []
  unfolding start_job create_job get_opportunity
  starting_lem r now new_id j db other (one, gone) =
      let after = (request (start_job r now new_id) db).1 in
      let new = new_job (record r { input = screening_input r db }) now new_id in
      let written : (after ≡ db) ⊎ (after ≡ record db { jobs = db.jobs ++ new ∷ [] }) =
        elim (Option-cases (find_opportunity r.org_id r.target_id db)) [
          | inl missing ↦ inl (ground arith)
          | inr (o, found) ↦ elim (Option-cases (find_where (same_request r now) db.jobs)) [
            | inl none_there ↦ elim (Bool-cases (str_eq r.idempotency_key "")) [
              | inl blank ↦ inl (ground arith)
              | inr keyed ↦ inr (ground arith)
            ]
            | inr (x, old) ↦ inl (ground arith)
          ]
        ] in
      elim written [
        | inl kept ↦ ap rows kept ∙ one
        | inr added ↦ ap rows added ∙ select-insert db.jobs new other ∙ one
      ]

  retry_asked_lem :
      (org_id old now new_id new_target : ℕ) (j : Job) (db : Db)
      → (new_id == id) ≡ false
      → IsGone j db
      → rows (request (retry_job retry_key org_id old now new_id new_target) db).1 ≡ j ∷ []
  unfolding retry_job create_job
  retry_asked_lem org_id old now new_id new_target j db other (one, gone) =
      let after = (request (retry_job retry_key org_id old now new_id new_target) db).1 in
      elim (Option-cases (find_where (owned_job org_id old) db.jobs)) [
        | inl missing ↦ let kept : after ≡ db = ground arith in ap rows kept ∙ one
        | inr (x, found) ↦
            let asked : JobRequest = record {
              org_id = org_id;
              kind = x.kind;
              target_type = text_or x.target_type "unknown";
              target_id = id_or x.target_id new_target;
              idempotency_key = retry_key x.id x.attempts;
              input = record (x.input) { retry_of = some x.id };
            } in
            let new = new_job asked now new_id in
            let written : (after ≡ db) ⊎ (after ≡ record db { jobs = db.jobs ++ new ∷ [] }) =
              elim (Option-cases (find_where (same_request asked now) db.jobs)) [
                | inl none_there ↦ elim (Bool-cases (is_retryable x.status)) [
                  | inl granted ↦ inr (ground arith)
                  | inr refused ↦ inl (ground arith)
                ]
                | inr (y, old) ↦ inl (ground arith)
              ] in
            elim written [
              | inl kept ↦ ap rows kept ∙ one
              | inr added ↦ ap rows added ∙ select-insert db.jobs new other ∙ one
            ]
      ]

  after_event-rows :
      (e : JobEvent) (j : Job) (db : Db)
      → IsOther e
      → IsGone j db
      → rows (after_event e db) ≡ j ∷ []
  after_event-rows (taken body now later) j db other h =
      ap rows (taken_lem body now later j db h) ∙ h.0
  after_event-rows (cancelling org_id old now) j db other h = cancelling_lem org_id old now j db h
  after_event-rows (retry_asked org_id old now new_id new_target) j db other h =
      retry_asked_lem org_id old now new_id new_target j db other h
  after_event-rows (starting r now new_id) j db other h = starting_lem r now new_id j db other h
  after_event-rows (reaping now) j db other h = reaping_lem now j db h

  -- A cancelled job that no worker has stays as it is: if its one row is cancelled, then it is the
  -- same row after any sequence of requests, in which workers with any work try to take it, and any
  -- organisation cancels or retries any job, starts a job, or the reaper runs, new jobs having other
  -- ids.
  pub cancelled_stays :
      (es : List JobEvent) (j : Job) (db : Db)
      → rows db ≡ j ∷ []
      → j.status ≡ JobStatus.cancelled
      → All IsOther es
      → rows (after_events es db) ≡ j ∷ []
  cancelled_stays [] j db one gone others = one
  cancelled_stays (e ∷ es) j db one gone others =
      cancelled_stays es j (after_event e db) (after_event-rows e j db others.0 (one, gone)) gone
        others.1
