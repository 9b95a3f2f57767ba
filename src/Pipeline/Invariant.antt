-- ===== src/Pipeline/Invariant.antt =====
-- What a whole job keeps (`process_job` of backend/app/services/pipeline.py).
use dolphin_vc.Jobs.Worker.{step_taken, record_failure}
use dolphin_vc.Base.{Bool-cases, inl, inr}
use dolphin_vc.Errors.{is_refused_flush}
use dolphin_vc.Pipeline.Kept.{commit_step-Here}
use dolphin_vc.Session.{◌>>◌}
use dolphin_vc.Scoring.Recommendation.{Recommendation}
use dolphin_vc.Pipeline.Stages.{
  found_id-Here, open_screening-Here, score_stage-Here, recommend_stage-Here, memo_stage-Here,
  gather_claims-Here, prescreen-Here,
}
use dolphin_vc.Jobs.Queue.{job_is, is_cancelled}
use dolphin_vc.Records.{
  screened, Memo, OpportunityScore, Claim, Application, Db, Company, Opportunity, Job,
}
use dolphin_vc.Errors.{AppError}
use dolphin_vc.Jobs.Worker.{succeed, fail, start, supervise_found, supervise}
use dolphin_vc.Pipeline.Screen.{
  set_stage, save_opportunity, find_application, or_else, ScreenDraw, ScreenTools,
}
use dolphin_vc.Pipeline.Process.{
  done_stage, score_stage, gather_claims, prescreen, work, open_screening, memo_stage, judge,
  review, recommend_stage, load_target, screen_loaded, screen, conclude, process_job,
}
use dolphin_vc.Base.{update_where, ◌≡◌, str_eq, find_where, ℕ, String, Option, none, some, List}
use dolphin_vc.Session.{◌>>◌, catch-Keeps, pure, if-Keeps, bind-Keeps, Tx, Keeps}
use dolphin_vc.Types.{OpportunityStage}
use dolphin_vc.Pipeline.Kept.{Kept, Here}
use dolphin_vc.Base.{refl}

module _ {D : Type 0} (tools : ScreenTools D) (draw : ScreenDraw) (k : Kept tools draw)
    (saved : (id : ℕ) (g : Job → Job) (scores : List OpportunityScore) (memos : List Memo)
        (jobs : List Job)
      → ((j : Job) → (g j).id ≡ j.id)
      → k.P scores memos jobs
      → k.P scores memos (update_where (job_is id) g jobs)) where
  done_stage-Here :
      (j : Job) (o : Opportunity) (r : Recommendation)
      → Keeps (Here tools draw k) (done_stage tools draw j o r)
  unfolding done_stage
  done_stage-Here j o r c h =
      let u =
        saved j.id (succeed (draw.clock 6) (some (screened o.id draw.memo_id r.decision)))
          c.working.scores c.working.memos c.working.jobs (λ x. refl) h.1 in
      commit_step-Here tools draw k (step_taken j.id 6 c.working) _ (h.0, u)

  conclude-Here :
      (j : Job) (target : Opportunity × Company) (a : Option Application) (claims : List Claim)
      (axes : List OpportunityScore)
      → Keeps (Here tools draw k) (conclude tools draw j target a claims axes)
  unfolding conclude
  conclude-Here j (o, company) a claims axes =
      bind-Keeps (Here tools draw k) (recommend_stage tools draw j o company claims axes)
        (λ r. memo_stage tools draw j o a claims r >> done_stage tools draw j o r)
        (recommend_stage-Here tools draw k j o company claims axes)
        (λ r.
          bind-Keeps (Here tools draw k) (memo_stage tools draw j o a claims r)
            (λ _. done_stage tools draw j o r) (memo_stage-Here tools draw k j o a claims r)
            (λ _. done_stage-Here j o r))

  screen_loaded-Here :
      (j : Job) (target : Opportunity × Company)
      → Keeps (Here tools draw k) (screen_loaded tools draw j target)
  unfolding screen_loaded review judge open_screening
  screen_loaded-Here j target c h =
      let a =
        find_application j.input.application_id
          (save_opportunity target.0.id (set_stage OpportunityStage.screening) c.working) in
      bind-Keeps (Here tools draw k) (prescreen tools draw j target.0)
        (λ _. review tools draw j target a) (prescreen-Here tools draw k j target.0)
        (λ _.
          bind-Keeps (Here tools draw k) (gather_claims tools draw j target.0)
            (judge tools draw j target a) (gather_claims-Here tools draw k j target.0)
            (λ claims.
              bind-Keeps (Here tools draw k) (score_stage tools draw j target.0 claims)
                (conclude tools draw j target a claims)
                (score_stage-Here tools draw k j target.0 claims)
                (conclude-Here j target a claims)))
        (open_screening tools draw j target.0 c).1 (open_screening-Here tools draw k j target.0 c h)

  screen-Here : (j : Job) → Keeps (Here tools draw k) (screen tools draw j)
  unfolding screen load_target
  screen-Here j =
      bind-Keeps (Here tools draw k) (load_target tools draw j) (screen_loaded tools draw j)
        (found_id-Here tools draw k (or_else j.target_id j.input.opportunity_id))
        (screen_loaded-Here j)

  record_failure-Here :
      (describe : AppError → String × String) (id later : ℕ) (e : AppError)
      → Keeps (Here tools draw k) (record_failure describe id later e)
  record_failure-Here describe id later e c h =
      let u =
        saved id (fail describe later e) c.working.scores c.working.memos c.working.jobs (λ x. refl)
          h.1 in
      elim (Bool-cases (is_refused_flush e)) [
        | inl refused ↦ rw refused (h.0, h.0)
        | inr lives ↦ rw lives (u, u)
      ]

  module _ (describe : AppError → String × String) (harvest : Job → Tx Db (Unit {0})) where
    work-Here :
        ((j : Job) → Keeps (Here tools draw k) (harvest j))
        → (j : Job) → Keeps (Here tools draw k) (work tools draw harvest j)
    work-Here keep j =
        if-Keeps (Here tools draw k) (str_eq j.kind "ingest.harvest") (harvest j)
          (screen tools draw j) (keep j) (screen-Here j)

    supervised-Here :
        ((j : Job) → Keeps (Here tools draw k) (harvest j))
        → (found : Option Job) (now later : ℕ)
        → Keeps
            (Here tools draw k)
            (supervise_found describe (work tools draw harvest) found now later)
    unfolding supervise_found
    supervised-Here keep none now later = λ c h. h
    supervised-Here keep (some j) now later =
        if-Keeps (Here tools draw k) (is_cancelled j.status) (pure tt) _ (λ c h. h)
          (λ c h.
            catch-Keeps (Here tools draw k) (work tools draw harvest (start now j))
              (record_failure describe j.id later) (work-Here keep (start now j))
              (record_failure-Here describe j.id later) _
              (let u =
                  saved j.id (start now) c.working.scores c.working.memos c.working.jobs (λ x. refl)
                    h.1 in
                (u, u)))

    -- A whole job keeps the property, if a harvest does.
    pub process_job-Here :
        ((j : Job) → Keeps (Here tools draw k) (harvest j))
        → (job_id : ℕ) → Keeps (Here tools draw k) (process_job tools draw describe harvest job_id)
    unfolding process_job supervise
    process_job-Here keep job_id c h =
        supervised-Here keep (find_where (job_is job_id) c.working.jobs) (draw.clock 0)
          (draw.clock 7) c h
