-- ===== src/Pipeline/Ending.antt =====
-- How the stages of a screening leave its job (`process_job` of
-- backend/app/services/pipeline.py).
use dolphin_vc.Jobs.Worker.{record_failure, step_taken, commit_step}
use dolphin_vc.Errors.{refused_flush, is_refused_flush}
use dolphin_vc.Base.{Bool, true, false}
use dolphin_vc.Scoring.Recommendation.{Recommendation}
use dolphin_vc.Pipeline.Stages.{
  found_id-Here, open_screening-Here, score_stage-Here, gather_claims-Here, prescreen-Here,
  recommend_stage-Here, memo_stage-Here,
}
use dolphin_vc.Errors.{err, ok, Result, AppError}
use dolphin_vc.Jobs.Worker.{beat, succeed, fail}
use dolphin_vc.Session.{◌>>◌, rescue, bind-Ends, Ends, Conn}
use dolphin_vc.Pipeline.Process.{
  score_stage, gather_claims, prescreen, open_screening, judge, review, load_target, screen_loaded,
  screen, done_stage, memo_stage, recommend_stage, conclude,
}
use dolphin_vc.Pipeline.Kept.{Here, Kept}
use dolphin_vc.Pipeline.Screen.{
  find_application, set_stage, save_opportunity, or_else, ScreenDraw, ScreenTools,
}
use dolphin_vc.Jobs.Queue.{job_is}
use dolphin_vc.Records.{
  screened, Claim, Application, Company, Opportunity, Memo, OpportunityScore, Job, Db,
}
use mathlib.Core.Option
use dolphin_vc.Types.{JobStatus, OpportunityStage}
use dolphin_vc.Base.{
  ◌==◌, find_where-update_where, find_where-holds, Bool-cases, change, ap, update_where, ℕ, ◌≡◌,
  ◌∙◌, ◌⊎◌, inl, inr, refl, String, Option, some, List, find_where,
}

change-id :
    (id : ℕ) (g : Job → Job) (x : Job)
    → ((y : Job) → (g y).id ≡ y.id)
    → (change (job_is id) g x).id ≡ x.id
change-id id g x same = elim (Bool-cases (x.id == id)) [
  | inl hit ↦ rw hit (same x)
  | inr miss ↦ rw miss refl
]

-- A job stays in the table when a job is saved, and when it is the one, as it was saved.
pub saved_job :
    (id other : ℕ) (g : Job → Job) (jobs : List Job) (j : Job)
    → ((y : Job) → (g y).id ≡ y.id)
    → find_where (job_is id) jobs ≡ some j
    → find_where (job_is id) (update_where (job_is other) g jobs) ≡ some (change (job_is other) g j)
saved_job id other g jobs j same found =
    find_where-update_where (job_is id) (job_is other) g jobs
      (λ x. ap (λ n. n == id) (change-id other g x same))
    ∙ ap (Option.map (change (job_is other) g)) found

pub saved_own :
    (id : ℕ) (g : Job → Job) (jobs : List Job) (j : Job)
    → ((y : Job) → (g y).id ≡ y.id)
    → find_where (job_is id) jobs ≡ some j
    → find_where (job_is id) (update_where (job_is id) g jobs) ≡ some (g j)
saved_own id g jobs j same found =
    saved_job id id g jobs j same found
    ∙ ap some (rw (find_where-holds (job_is id) jobs j found) refl)

module _ {D : Type 0} (tools : ScreenTools D) (draw : ScreenDraw) (j : Job) where
  -- The job is in the table and runs.
  abbrev IsRunning : List OpportunityScore → List Memo → List Job → Type 0
  IsRunning scores memos jobs =
      (x : Job) × (find_where (job_is j.id) jobs ≡ some x) × (x.status ≡ JobStatus.running)

  pub beat-status :
      (id amount : ℕ) (action : String) (now : ℕ) (x : Job)
      → (change (job_is id) (beat amount action now) x).status ≡ x.status
  beat-status id amount action now x = elim (Bool-cases (x.id == id)) [
    | inl hit ↦ rw hit refl
    | inr miss ↦ rw miss refl
  ]

  abbrev pub there : Kept tools draw
  there = record {
    P = IsRunning;
    scored = λ o d scores memos jobs h. h;
    noted = λ o claims r scores memos jobs h. h;
    beaten = λ id amount action now scores memos jobs (x, found, runs). (
      change (job_is id) (beat amount action now) x,
      saved_job j.id id (beat amount action now) jobs x (λ y. refl) found,
      beat-status id amount action now x ∙ runs,
    );
  }

  abbrev There : Conn Db → Type 0
  There = Here tools draw there

  abbrev Succeeded : Conn Db → Type 0
  Succeeded c =
      (x : Job) × (find_where (job_is j.id) c.committed.jobs ≡ some x)
      × (x.status ≡ JobStatus.succeeded)

  -- The worker has returned and the job has succeeded or failed, or a flush was refused, the worker
  -- has raised and the job still runs.
  abbrev pub Ended : Result (Unit {0}) → Db → Type 0
  Ended r db =
      (x : Job) × (find_where (job_is j.id) db.jobs ≡ some x)
      × (((r ≡ ok tt) × ((x.status ≡ JobStatus.succeeded) ⊎ (x.status ≡ JobStatus.failed)))
          ⊎ ((r ≡ err refused_flush) × (x.status ≡ JobStatus.running)))

  commit_step-Ends :
      (taken : Bool) (c : Conn Db)
      → (There (record c { working = c.committed }))
      → (Succeeded (record c { committed = c.working }))
      → Ends There Succeeded (commit_step taken c)
  commit_step-Ends true c h done = h
  commit_step-Ends false c h done = done

  done_stage-Ends :
      (o : Opportunity) (r : Recommendation) (c : Conn Db)
      → There c
      → Ends There Succeeded (done_stage tools draw j o r c)
  unfolding done_stage
  done_stage-Ends o r c h =
      let done = succeed (draw.clock 6) (some (screened o.id draw.memo_id r.decision)) in
      commit_step-Ends (step_taken j.id 6 c.working) _ (h.0, h.0)
        (done h.1.0, saved_own j.id done c.working.jobs h.1.0 (λ y. refl) h.1.1, refl)

  conclude-Ends :
      (target : Opportunity × Company) (a : Option Application) (claims : List Claim)
      (axes : List OpportunityScore) (c : Conn Db)
      → There c
      → Ends There Succeeded (conclude tools draw j target a claims axes c)
  unfolding conclude
  conclude-Ends (o, company) a claims axes =
      bind-Ends There Succeeded (recommend_stage tools draw j o company claims axes)
        (λ r. memo_stage tools draw j o a claims r >> done_stage tools draw j o r)
        (recommend_stage-Here tools draw there j o company claims axes)
        (λ r.
          bind-Ends There Succeeded (memo_stage tools draw j o a claims r)
            (λ _. done_stage tools draw j o r) (memo_stage-Here tools draw there j o a claims r)
            (λ _. done_stage-Ends o r))

  screen_loaded-Ends :
      (target : Opportunity × Company) (c : Conn Db)
      → There c
      → Ends There Succeeded (screen_loaded tools draw j target c)
  unfolding screen_loaded review judge open_screening
  screen_loaded-Ends target c h =
      let entered = save_opportunity target.0.id (set_stage OpportunityStage.screening) c.working in
      let a = find_application j.input.application_id entered in
      bind-Ends There Succeeded (prescreen tools draw j target.0)
        (λ _. review tools draw j target a) (prescreen-Here tools draw there j target.0)
        (λ _.
          bind-Ends There Succeeded (gather_claims tools draw j target.0)
            (judge tools draw j target a) (gather_claims-Here tools draw there j target.0)
            (λ claims.
              bind-Ends There Succeeded (score_stage tools draw j target.0 claims)
                (conclude tools draw j target a claims)
                (score_stage-Here tools draw there j target.0 claims)
                (conclude-Ends target a claims)))
        (open_screening tools draw j target.0 c).1
        (open_screening-Here tools draw there j target.0 c h)

  pub screen-Ends : (c : Conn Db) → There c → Ends There Succeeded (screen tools draw j c)
  unfolding screen load_target
  screen-Ends =
      bind-Ends There Succeeded (load_target tools draw j) (screen_loaded tools draw j)
        (found_id-Here tools draw there (or_else j.target_id j.input.opportunity_id))
        screen_loaded-Ends

  -- The handler of a screening that has ended.
  pub rescue-Ended :
      (describe : AppError → String × String) (later : ℕ) (p : Result (Unit {0}) × Conn Db)
      → Ends There Succeeded p
      → let (r, c) = rescue (record_failure describe j.id later) p in Ended r c.committed
  rescue-Ended describe later (ok a, c) h = (h.0, h.1, inl (refl, inl h.2))
  rescue-Ended describe later (err e, c) h = elim (Bool-cases (is_refused_flush e)) [
    | inl refused ↦ rw refused (h.0.0, h.0.1, inr (refl, h.0.2))
    | inr lives ↦ rw lives (
      fail describe later e h.1.0,
      saved_own j.id (fail describe later e) c.working.jobs h.1.0 (λ y. refl) h.1.1,
      inl (refl, inr refl),
    )
  ]
