-- ===== src/Pipeline/Finish.antt =====
-- How a screening job ends (`process_job` of backend/app/services/pipeline.py).
use dolphin_vc.Pipeline.Ending.{screen-Ends, rescue-Ended, saved_own, Ended}
use dolphin_vc.Errors.{AppError, ok, err, refused_flush}
use mathlib.Core.Path.{subst}
use dolphin_vc.Jobs.Worker.{start, supervise_found, supervise}
use dolphin_vc.Session.{connect, request, Tx, Conn}
use dolphin_vc.Pipeline.Process.{work, screen, process_job}
use dolphin_vc.Pipeline.Screen.{ScreenDraw, ScreenTools}
use dolphin_vc.Jobs.Queue.{save_job, is_cancelled, job_is}
use dolphin_vc.Records.{Job, Db}
use dolphin_vc.Types.{JobStatus}
use dolphin_vc.Base.{
  ==_eq, find_where-holds, ap, ℕ, ◌≡◌, ◌∙◌, ◌⊎◌, refl, String, false, Option, some, find_where,
  str_eq,
}

module _ {D : Type 0} (tools : ScreenTools D) (draw : ScreenDraw)
    (describe : AppError → String × String) (harvest : Job → Tx Db (Unit {0})) where
  supervised-Ended :
      (now later : ℕ) (j : Job) (c : Conn Db)
      → is_cancelled j.status ≡ false
      → str_eq j.kind "ingest.harvest" ≡ false
      → find_where (job_is j.id) c.working.jobs ≡ some j
      → let (r, c') = supervise_found describe (work tools draw harvest) (some j) now later c in
        Ended tools draw j r c'.committed
  unfolding supervise_found
  supervised-Ended now later j c live screens found =
      let started = save_job j.id (start now) c.working in
      let own = saved_own j.id (start now) c.working.jobs j (λ y. refl) found in
      let fresh : Conn Db = record { committed = started; working = started } in
      rw (live, screens)
        (rescue-Ended tools draw (start now j) describe later
          (screen tools draw (start now j) fresh)
          (screen-Ends tools draw (start now j) fresh
            ((start now j, own, refl), (start now j, own, refl))))

  supervised_found :
      (now later : ℕ) (j : Job) (c : Conn Db) (o : Option Job)
      → is_cancelled j.status ≡ false
      → str_eq j.kind "ingest.harvest" ≡ false
      → find_where (job_is j.id) c.working.jobs ≡ some j
      → o ≡ some j
      → let (r, c') = supervise_found describe (work tools draw harvest) o now later c in
        Ended tools draw j r c'.committed
  supervised_found now later j c o live screens found same =
      rw same (supervised-Ended now later j c live screens found)

  module _ (job_id : ℕ) (db : Db) (j : Job) (found : find_where (job_is job_id) db.jobs ≡ some j)
      (live : is_cancelled j.status ≡ false)
      (screens : str_eq j.kind "ingest.harvest" ≡ false) where
    same_id : j.id ≡ job_id
    same_id = ==_eq j.id job_id (find_where-holds (job_is job_id) db.jobs j found)

    ended :
        let (r, db') = request (process_job tools draw describe harvest job_id) db in
        Ended tools draw j r db'
    unfolding process_job supervise
    ended =
        supervised_found (draw.clock 0) (draw.clock 7) j (connect db)
          (find_where (job_is job_id) db.jobs) live screens
          (ap (λ n. find_where (job_is n) db.jobs) same_id ∙ found) found

    -- A job for a screening that is there and not cancelled ends in one of two ways, whatever rows
    -- are missing, whatever the deck is and wherever the work raises: the worker returns and the job
    -- has succeeded or failed, or the worker raises as a flush was refused, and the job is left
    -- running.
    pub process_job_ends :
        let (r, db') = request (process_job tools draw describe harvest job_id) db in
        (x : Job) × (find_where (job_is job_id) db'.jobs ≡ some x)
        × (((r ≡ ok tt) × ((x.status ≡ JobStatus.succeeded) ⊎ (x.status ≡ JobStatus.failed)))
            ⊎ ((r ≡ err refused_flush) × (x.status ≡ JobStatus.running)))
    process_job_ends =
        let (r, db') = request (process_job tools draw describe harvest job_id) db in
        subst
          (λ (n : ℕ).
            (x : Job) × (find_where (job_is n) db'.jobs ≡ some x)
            × (((r ≡ ok tt) × ((x.status ≡ JobStatus.succeeded) ⊎ (x.status ≡ JobStatus.failed)))
                ⊎ ((r ≡ err refused_flush) × (x.status ≡ JobStatus.running))))
          same_id ended
