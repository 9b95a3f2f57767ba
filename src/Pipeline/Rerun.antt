-- ===== src/Pipeline/Rerun.antt =====
-- A job that is run a second time (`process_job` of backend/app/services/pipeline.py): the numbers
-- of its steps are taken.
use dolphin_vc.Base.{
  ℕ, ◌≡◌, ◌∙◌, refl, ap, inl, inr, String, Bool, true, false, Option, none, some, any_where,
  find_where, ◌==◌, str_eq, arith,
}
use dolphin_vc.Types.{ApplicationStatus, OpportunityStage, JobStatus}
use dolphin_vc.Errors.{AppError, Result, ok, err, refused_flush, is_refused_flush}
use dolphin_vc.Session.{Conn, Tx, resume, rescue, query, ◌>>=◌, connect, request}
use dolphin_vc.Records.{Db, Job, Opportunity, Company, Application, PrescreenResult}
use dolphin_vc.Jobs.Queue.{job_is, save_job, is_cancelled}
use dolphin_vc.Jobs.Worker.{
  step, step_taken, has_step, record_failure, supervise_found, supervise, start,
}
use dolphin_vc.Opportunities.Commands.{has_id}
use dolphin_vc.Pipeline.Screen.{
  ScreenTools, ScreenDraw, save_application, save_opportunity, set_stage, find_application, or_else,
}
use dolphin_vc.Pipeline.Process.{
  prescreen, prescreen_unless, screen_loaded, open_screening, review, load_target, screen, work,
  process_job,
}
use dolphin_vc.Pipeline.Finish.{process_job_ends}

step_refused :
    (id seq : ℕ) (action : String) (progress : ℕ) (message : String) (now : ℕ) (c : Conn Db)
    → step_taken id seq c.working ≡ true
    → step id seq action progress message now c
      ≡ (err refused_flush, record { committed = c.committed; working = c.committed })
unfolding step
step_refused id seq action progress message now c taken = rw taken refl

save_application-agent_steps :
    (a : Option Application) (status : ApplicationStatus) (db : Db)
    → (save_application a status db).agent_steps ≡ db.agent_steps
save_application-agent_steps none status db = refl
save_application-agent_steps (some a) status db = refl

module _ {D : Type 0} (tools : ScreenTools D) (draw : ScreenDraw) where
  prescreen_refused :
      (j : Job) (o : Opportunity) (c : Conn Db)
      → step_taken j.id 1 c.working ≡ true
      → prescreen tools draw j o c
        ≡ (err refused_flush, record { committed = c.committed; working = c.committed })
  unfolding prescreen
  prescreen_refused j o c taken =
      ap
        (resume (λ _.
          query (λ db. find_where (λ (r : PrescreenResult). r.opportunity_id == o.id) db.prescreens)
          >>= prescreen_unless tools draw o))
        (step_refused j.id 1 "prescreen" 800 "Mechanical prescreen completed." (draw.clock 1) c
          taken)

  loaded_refused :
      (j : Job) (target : Opportunity × Company) (c : Conn Db)
      → step_taken j.id 1 c.working ≡ true
      → (screen_loaded tools draw j target c).0 ≡ err refused_flush
  unfolding screen_loaded open_screening
  loaded_refused j target c taken =
      let entered = save_opportunity target.0.id (set_stage OpportunityStage.screening) c.working in
      let a = find_application j.input.application_id entered in
      let opened = save_application a ApplicationStatus.parsing entered in
      ap (λ p. (resume (λ _. review tools draw j target a) p).0)
        (prescreen_refused j target.0 (record { committed = opened; working = opened })
          (ap (any_where (has_step j.id 1))
              (save_application-agent_steps a ApplicationStatus.parsing entered)
            ∙ taken))

  load_lem :
      (j : Job) (o : Opportunity) (company : Company) (c : Conn Db)
      → or_else j.target_id j.input.opportunity_id ≡ some o.id
      → find_where (has_id o.id) c.working.opportunities ≡ some o
      → find_where (λ (x : Company). x.id == o.company_id) c.working.companies ≡ some company
      → load_target tools draw j c ≡ (ok (o, company), c)
  unfolding load_target
  load_lem j o company c to there owned = rw (to, there, owned) refl

  screen_refused :
      (j : Job) (o : Opportunity) (company : Company) (c : Conn Db)
      → or_else j.target_id j.input.opportunity_id ≡ some o.id
      → find_where (has_id o.id) c.working.opportunities ≡ some o
      → find_where (λ (x : Company). x.id == o.company_id) c.working.companies ≡ some company
      → step_taken j.id 1 c.working ≡ true
      → (screen tools draw j c).0 ≡ err refused_flush
  unfolding screen
  screen_refused j o company c to there owned taken =
      ap (λ p. (resume (screen_loaded tools draw j) p).0) (load_lem j o company c to there owned)
      ∙ loaded_refused j (o, company) c taken

abbrev is_refused_result : Result (Unit {0}) → Bool
is_refused_result (ok _) = false
is_refused_result (err e) = is_refused_flush e

rescued :
    (describe : AppError → String × String) (id later : ℕ) (p : Result (Unit {0}) × Conn Db)
    → p.0 ≡ err refused_flush
    → (rescue (record_failure describe id later) p).0 ≡ err refused_flush
rescued describe id later (ok a, c) h = absurd (ground arith)
rescued describe id later (err e, c) h = rw (ap is_refused_result h) refl

module _ {D : Type 0} (tools : ScreenTools D) (draw : ScreenDraw)
    (describe : AppError → String × String) (harvest : Job → Tx Db (Unit {0})) where
  supervised_refused :
      (now later : ℕ) (j : Job) (o : Opportunity) (company : Company) (c : Conn Db)
      (found : Option Job)
      → found ≡ some j
      → is_cancelled j.status ≡ false
      → str_eq j.kind "ingest.harvest" ≡ false
      → or_else j.target_id j.input.opportunity_id ≡ some o.id
      → find_where (has_id o.id) c.working.opportunities ≡ some o
      → find_where (λ (x : Company). x.id == o.company_id) c.working.companies ≡ some company
      → step_taken j.id 1 c.working ≡ true
      → (supervise_found describe (work tools draw harvest) found now later c).0 ≡ err refused_flush
  unfolding supervise_found
  supervised_refused now later j o company c found same live screens to there owned taken =
      let started = save_job j.id (start now) c.working in
      let fresh : Conn Db = record { committed = started; working = started } in
      rw (same, live, screens)
        (rescued describe j.id later (screen tools draw (start now j) fresh)
          (screen_refused tools draw (start now j) o company fresh to there owned taken))

-- A job for a screening that is there and not cancelled, whose opportunity and company are there,
-- and of which the step with the number 1 is stored, since it was run before, does not end: a worker
-- that takes it raises, and it is left running.
pub rerun_stays_running :
    {D : Type 0} (tools : ScreenTools D) (draw : ScreenDraw) (describe : AppError → String × String)
    (harvest : Job → Tx Db (Unit {0})) (db : Db) (j : Job) (o : Opportunity) (company : Company)
    → find_where (job_is j.id) db.jobs ≡ some j
    → is_cancelled j.status ≡ false
    → str_eq j.kind "ingest.harvest" ≡ false
    → or_else j.target_id j.input.opportunity_id ≡ some o.id
    → find_where (has_id o.id) db.opportunities ≡ some o
    → find_where (λ (x : Company). x.id == o.company_id) db.companies ≡ some company
    → step_taken j.id 1 db ≡ true
    → let (r, db') = request (process_job tools draw describe harvest j.id) db in
      (r ≡ err refused_flush)
      × ((x : Job) × (find_where (job_is j.id) db'.jobs ≡ some x) × (x.status ≡ JobStatus.running))
unfolding process_job supervise
rerun_stays_running tools draw describe harvest db j o company found live screens to there owned
      taken =
    let (r, db') = request (process_job tools draw describe harvest j.id) db in
    let raised : r ≡ err refused_flush =
      supervised_refused tools draw describe harvest (draw.clock 0) (draw.clock 7) j o company
        (connect db) (find_where (job_is j.id) db.jobs) found live screens to there owned taken in
    let (x, kept, over) =
      process_job_ends tools draw describe harvest j.id db j found live screens in
    elim over [
      | inl (returned, ended) ↦ absurd (ground (arith, raised))
      | inr (refused, runs) ↦ (raised, (x, kept, runs))
    ]
