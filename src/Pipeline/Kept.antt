-- ===== src/Pipeline/Kept.antt =====
-- What a screening keeps of the scores, the memos and the jobs (`process_job` of
-- backend/app/services/pipeline.py).
use dolphin_vc.Base.{Bool, true, false}
use dolphin_vc.Jobs.Worker.{step_taken, commit_step}
use dolphin_vc.Jobs.Queue.{job_is}
use dolphin_vc.Scoring.Recommendation.{Recommendation}
use dolphin_vc.Pipeline.Axes.{score_row, AxisDraft, add_score, add_scores}
use dolphin_vc.Pipeline.Process.{memo_row}
use dolphin_vc.Types.{ApplicationStatus}
use dolphin_vc.Session.{Conn, pure, bind-Keeps, Keeps}
use dolphin_vc.Records.{Memo, OpportunityScore, Claim, Opportunity, Job, Db, Application}
use dolphin_vc.Pipeline.Screen.{save_application, latest_memo, ScreenDraw, ScreenTools}
use dolphin_vc.Jobs.Worker.{beat, step}
use dolphin_vc.Base.{update_where, ◌++◌, ℕ, String, Option, none, some, List, [], ◌∷◌}

-- What the stages of a job write of the scores, the memos and the jobs keeps a property of these
-- tables.
pub record Kept {D : Type 0} (tools : ScreenTools D) (draw : ScreenDraw) : Type 1 where
  pub P : List OpportunityScore → List Memo → List Job → Type 0
  pub scored :
      (o : ℕ) (d : AxisDraft) (scores : List OpportunityScore) (memos : List Memo) (jobs : List Job)
      → P scores memos jobs
      → P (scores ++ score_row o scores d ∷ []) memos jobs
  pub noted :
      (o : Opportunity) (claims : List Claim) (r : Recommendation) (scores : List OpportunityScore)
      (memos : List Memo) (jobs : List Job)
      → P scores memos jobs
      → P scores (memos ++ memo_row tools draw o claims r (latest_memo o.id memos) ∷ []) jobs
  pub beaten :
      (id progress : ℕ) (action : String) (now : ℕ) (scores : List OpportunityScore)
      (memos : List Memo) (jobs : List Job)
      → P scores memos jobs
      → P scores memos (update_where (job_is id) (beat progress action now) jobs)

module _ {D : Type 0} (tools : ScreenTools D) (draw : ScreenDraw) (k : Kept tools draw) where
  abbrev Sees : Db → Type 0
  Sees db = k.P db.scores db.memos db.jobs

  -- The property holds of what is committed and of what the session has written.
  abbrev pub Here : Conn Db → Type 0
  Here c = Sees c.committed × Sees c.working

  pub save_application-Here :
      (a : Option Application) (status : ApplicationStatus) (db : Db)
      → Sees db
      → Sees (save_application a status db)
  save_application-Here none status db h = h
  save_application-Here (some a) status db h = h

  pub commit_step-Here : (taken : Bool) → Keeps Here (commit_step taken)
  commit_step-Here true c h = (h.0, h.0)
  commit_step-Here false c h = (h.1, h.1)

  pub step-Here :
      (job seq : ℕ) (action : String) (progress : ℕ) (message : String) (now : ℕ)
      → Keeps Here (step job seq action progress message now)
  unfolding step
  step-Here job seq action progress message now c h =
      let u =
        k.beaten job progress action now c.working.scores c.working.memos c.working.jobs h.1 in
      commit_step-Here (step_taken job seq c.working) _ (h.0, u)

  pub add_scores-Here : (o : ℕ) (drafts : List AxisDraft) → Keeps Here (add_scores o drafts)
  unfolding add_scores add_score
  add_scores-Here o [] c h = h
  add_scores-Here o (d ∷ drafts) c h =
      bind-Keeps Here (add_scores o drafts) (λ rows. pure (score_row o c.working.scores d ∷ rows))
        (add_scores-Here o drafts) (λ rows c' h'. h') (add_score o d c).1
        (h.0, k.scored o d c.working.scores c.working.memos c.working.jobs h.1)
