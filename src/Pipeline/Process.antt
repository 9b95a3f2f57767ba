-- ===== src/Pipeline/Process.antt =====
-- `process_job` of backend/app/services/pipeline.py, stage by stage, in the frame of Jobs/Worker.
use dolphin_vc.Jobs.Worker.{step_taken, commit_step}
use dolphin_vc.Opportunities.Commands.{has_id}
use dolphin_vc.Jobs.Queue.{save_job}
use dolphin_vc.Scoring.Recommendation.{Recommendation}
use dolphin_vc.Pipeline.Axes.{thesis_fit, score_axes}
use dolphin_vc.Records.{
  set_agent_steps, screened, set_memos, OpportunityScore, Memo, set_prescreens, Claim, Application,
  PrescreenResult, Document, Db, Company, Opportunity, Job,
}
use dolphin_vc.Memo.Compose.{compose_memo}
use dolphin_vc.Jobs.Worker.{succeed, supervise, step}
use dolphin_vc.Extraction.Ingest.{claim_of_opportunity, parse_and_extract}
use dolphin_vc.Pipeline.Screen.{
  find_application, set_stage, done_step, save_application, set_fit, memo_ready, find_document,
  save_opportunity, passed_prescreen, missing, verdict, or_else, trust_counts, latest_memo,
  ScreenDraw, ScreenTools,
}
use dolphin_vc.Base.{
  str_eq, ℕ, ◌+◌, String, none, some, Option, List, [], ◌∷◌, ◌++◌, ◌==◌, if◌then◌else◌, find_where,
  select_where, length,
}
use dolphin_vc.Types.{OpportunityStage, ApplicationStatus}
use dolphin_vc.Errors.{AppError}
use dolphin_vc.Session.{raise, Tx, pure, query, modify, commit, ◌>>=◌, ◌>>◌}

module _ {D : Type 0} (tools : ScreenTools D) (draw : ScreenDraw) where
  unfoldable pub found_company : Opportunity → Option Company → Tx Db (Opportunity × Company)
  found_company o none = raise (missing "company missing")
  found_company o (some company) = pure (o, company)

  unfoldable pub found_opportunity : Option Opportunity → Tx Db (Opportunity × Company)
  unfolding found_company
  found_opportunity none = raise (missing "opportunity missing")
  found_opportunity (some o) = do
    found ← query (λ db. find_where (λ (c : Company). c.id == o.company_id) db.companies)
    found_company o found

  unfoldable pub found_id : Option ℕ → Tx Db (Opportunity × Company)
  unfolding found_opportunity
  found_id none = raise (missing "opportunity_id")
  found_id (some id) = do
    found ← query (λ db. find_where (has_id id) db.opportunities)
    found_opportunity found

  -- The rows that the job is about.
  unfoldable pub load_target : Job → Tx Db (Opportunity × Company)
  unfolding found_id
  load_target j = found_id (or_else j.target_id j.input.opportunity_id)

  -- The opportunity and the application of the job enter the screening.
  unfoldable pub open_screening : Job → Opportunity → Tx Db (Option Application)
  open_screening j o = do
    modify (save_opportunity o.id (set_stage OpportunityStage.screening))
    application ← query (find_application j.input.application_id)
    modify (save_application application ApplicationStatus.parsing)
    commit
    pure application

  unfoldable pub prescreen_unless : Opportunity → Option PrescreenResult → Tx Db (Unit {0})
  prescreen_unless o (some r) = pure tt
  prescreen_unless o none = do
    modify (set_prescreens (λ rows. rows ++ passed_prescreen o.id ∷ []))
    commit

  unfoldable pub prescreen : Job → Opportunity → Tx Db (Unit {0})
  unfolding step prescreen_unless
  prescreen j o = do
    step j.id 1 "prescreen" 800 "Mechanical prescreen completed." (draw.clock 1)
    found ←
        query (λ db. find_where (λ (r : PrescreenResult). r.opportunity_id == o.id) db.prescreens)
    prescreen_unless o found

  unfoldable pub claims_of_document :
      Opportunity → Option Document → List Claim → Tx Db (List Claim)
  unfolding parse_and_extract
  claims_of_document o none claims = pure claims
  claims_of_document o (some d) claims = do
    claims' ← parse_and_extract tools.ingest d o draw.first_id
    commit
    pure claims'

  abbrev pub claims_gathered : Job → List Claim → Tx Db (List Claim)
  claims_gathered j claims = do
    step j.id 2 "extract_claims" 3200 (tools.extracted (length claims)) (draw.clock 2)
    pure claims

  unfoldable pub gather_claims : Job → Opportunity → Tx Db (List Claim)
  unfolding step claims_of_document
  gather_claims j o = do
    stored ← query (λ db. select_where (claim_of_opportunity o.id) db.claims)
    document ← query (find_document j.input.document_id)
    claims ← claims_of_document o document stored
    claims_gathered j claims

  abbrev pub axes_scored : Job → List OpportunityScore → Tx Db (List OpportunityScore)
  axes_scored j axes = do
    commit
    step j.id 3 "score_axes" 5800 "Three independent axes scored without averaging." (draw.clock 3)
    pure axes

  unfoldable pub score_stage : Job → Opportunity → List Claim → Tx Db (List OpportunityScore)
  unfolding step score_axes
  score_stage j o claims = do axes ← score_axes o claims; axes_scored j axes

  unfoldable pub recommend_stage :
      Job → Opportunity → Company → List Claim → List OpportunityScore → Tx Db Recommendation
  unfolding step thesis_fit verdict
  recommend_stage j o company claims axes = do
    fit ← thesis_fit tools.casefold tools.round o company
    modify (save_opportunity o.id (set_fit fit.0))
    step j.id 4 "thesis_and_recommend" 7200 "Thesis fit and recommendation computed." (draw.clock 4)
    pure (verdict tools.floats claims axes fit)

  -- The memo, as the version after the latest.
  unfoldable pub memo_row : Opportunity → List Claim → Recommendation → ℕ → Memo
  unfolding compose_memo trust_counts
  memo_row o claims r latest =
      let draft =
        compose_memo tools.show_id tools.fixed_two tools.title claims r.decision r.rationale in
      record {
        id = draw.memo_id;
        org_id = o.org_id;
        opportunity_id = o.id;
        version = latest + 1;
        status = "ready";
        sections = draft.sections;
        recommendation = some r.decision;
        recommendation_rationale = some r.rationale;
        bear_case = some "Evidence remains incomplete; validate every decision-critical gap.";
        kill_criteria =
            "Critical claim contradicted" ∷ "Founder identity unresolved" ∷ "Thesis hard gate fails"
            ∷ [];
        gaps = draft.gaps;
        trust_summary = trust_counts claims;
        word_count = some draft.word_count;
        model_version = some "memo-deterministic-v1";
      }

  unfoldable pub memo_stage :
      Job → Opportunity → Option Application → List Claim → Recommendation → Tx Db (Unit {0})
  unfolding step memo_row latest_memo
  memo_stage j o application claims r = do
    latest ← query (λ db. latest_memo o.id db.memos)
    modify (set_memos (λ memos. memos ++ memo_row o claims r latest ∷ []))
    modify (save_opportunity o.id (memo_ready (draw.clock 5)))
    modify (save_application application ApplicationStatus.in_diligence)
    commit
    step j.id 5 "memo" 9500 "Evidence-backed memo generated; gaps marked not disclosed."
        (draw.clock 5)

  unfoldable pub done_stage : Job → Opportunity → Recommendation → Tx Db (Unit {0})
  done_stage j o r = do
    taken ← query (step_taken j.id 6)
    modify (save_job j.id (succeed (draw.clock 6) (some (screened o.id draw.memo_id r.decision))))
    modify (set_agent_steps (λ steps. steps ++ done_step j.id ∷ []))
    commit_step taken

  -- The stages in order: from the axes on, from the claims on, and all of them.
  unfoldable pub conclude :
      Job
      → Opportunity × Company
      → Option Application
      → List Claim
      → List OpportunityScore
      → Tx Db (Unit {0})
  unfolding recommend_stage memo_stage done_stage
  conclude j (o, company) application claims axes = do
    r ← recommend_stage j o company claims axes
    memo_stage j o application claims r
    done_stage j o r

  unfoldable pub judge :
      Job → Opportunity × Company → Option Application → List Claim → Tx Db (Unit {0})
  unfolding score_stage conclude
  judge j target application claims = do
    axes ← score_stage j target.0 claims
    conclude j target application claims axes

  unfoldable pub review : Job → Opportunity × Company → Option Application → Tx Db (Unit {0})
  unfolding gather_claims judge
  review j target application = do
    claims ← gather_claims j target.0
    judge j target application claims

  unfoldable pub screen_loaded : Job → Opportunity × Company → Tx Db (Unit {0})
  unfolding open_screening prescreen review
  screen_loaded j target = do
    application ← open_screening j target.0
    prescreen j target.0
    review j target application

  unfoldable pub screen : Job → Tx Db (Unit {0})
  unfolding load_target screen_loaded
  screen j = do target ← load_target j; screen_loaded j target

  -- What a job does; the harvest of the sources is an argument.
  abbrev pub work : (Job → Tx Db (Unit {0})) → Job → Tx Db (Unit {0})
  work harvest j = if str_eq j.kind "ingest.harvest" then harvest j else screen j

  -- `process_job`
  unfoldable pub process_job :
      (AppError → String × String) → (Job → Tx Db (Unit {0})) → ℕ → Tx Db (Unit {0})
  unfolding supervise screen
  process_job describe harvest job_id =
      supervise describe (work harvest) job_id (draw.clock 0) (draw.clock 7)
