-- ===== src/Pipeline/Screen.antt =====
-- What `process_job` of backend/app/services/pipeline.py reads and writes while it screens. An exception that is not an `AppError` counts as `internal_error`.
use dolphin_vc.Base.{
  max_where, ℕ, ◌+◌, String, Bool, true, false, ◌&&◌, Option, none, some, List, [], ◌∷◌, ltb, ◌==◌,
  any_where, find_where, update_where, count_where, map,
}
use dolphin_vc.Types.{OpportunityStage, ApplicationStatus, ClaimStatus, ClaimCategory}
use dolphin_vc.Errors.{AppError, ErrorCode, app_error}
use dolphin_vc.Records.{
  Db, Opportunity, Application, Claim, Document, Memo, OpportunityScore, PrescreenResult, AgentStep,
  set_opportunities, set_applications,
}
use dolphin_vc.Opportunities.Commands.{has_id}
use dolphin_vc.Memo.Compose.{same_category}
use dolphin_vc.Scoring.Recommendation.{AxisValue, Recommendation, recommend, Floats}
use dolphin_vc.Extraction.Ingest.{IngestTools}

-- The libraries that a screening uses, and the texts that it shows.
pub record ScreenTools (D : Type 0) : Type 0 where
  pub ingest : IngestTools D
  pub casefold : String → String
  pub round : ℕ → ℕ → ℕ
  pub show_id : ℕ → String
  pub fixed_two : ℕ → String
  pub title : String → String
  pub extracted : ℕ → String
  pub floats : Floats

-- The clock at each of the steps, the first id of the extracted rows and the id of the memo.
pub record ScreenDraw : Type 0 where
  pub clock : ℕ → ℕ
  pub first_id : ℕ
  pub memo_id : ℕ

abbrev pub missing : String → AppError
missing message = app_error ErrorCode.internal_error message 500

abbrev pub or_else : Option ℕ → Option ℕ → Option ℕ
or_else none other = other
or_else (some a) other = some a

abbrev pub set_stage : OpportunityStage → Opportunity → Opportunity
set_stage stage o = record o { stage = stage }

abbrev set_status : ApplicationStatus → Application → Application
set_status status a = record a { status = status }

abbrev pub save_application : Option Application → ApplicationStatus → Db → Db
save_application none status db = db
save_application (some a) status db =
    set_applications (update_where (λ (x : Application). x.id == a.id) (set_status status)) db

abbrev pub find_application : Option ℕ → Db → Option Application
find_application none db = none
find_application (some id) db = find_where (λ (a : Application). a.id == id) db.applications

abbrev pub find_document : Option ℕ → Db → Option Document
find_document none db = none
find_document (some id) db = find_where (λ (d : Document). d.id == id) db.documents

abbrev is_contradicted : ClaimStatus → Bool
is_contradicted ClaimStatus.contradicted = true
is_contradicted _ = false

-- A contradicted claim on revenue, traction or the team.
abbrev pub is_critical : Claim → Bool
is_critical c =
    is_contradicted c.status
    && any_where (same_category c.category)
        (ClaimCategory.revenue ∷ ClaimCategory.traction ∷ ClaimCategory.team ∷ [])

abbrev same_status : ClaimStatus → ClaimStatus → Bool
same_status ClaimStatus.verified ClaimStatus.verified = true
same_status ClaimStatus.corroborated ClaimStatus.corroborated = true
same_status ClaimStatus.claimed ClaimStatus.claimed = true
same_status ClaimStatus.contradicted ClaimStatus.contradicted = true
same_status ClaimStatus.not_disclosed ClaimStatus.not_disclosed = true
same_status ClaimStatus.unverifiable ClaimStatus.unverifiable = true
same_status _ _ = false

-- `{status.value: trust_counts[status.value] for status in ClaimStatus}`
unfoldable pub trust_counts : List Claim → List (ClaimStatus × ℕ)
trust_counts claims =
    map (λ status. (status, count_where (λ c. same_status c.status status) claims))
      (ClaimStatus.verified ∷ ClaimStatus.corroborated ∷ ClaimStatus.claimed
        ∷ ClaimStatus.contradicted ∷ ClaimStatus.not_disclosed ∷ ClaimStatus.unverifiable ∷ [])

abbrev pub axis_value : OpportunityScore → AxisValue
axis_value s = record { score = s.score; confidence = s.confidence; rationale = s.rationale }

-- `float(axes[0].confidence) < 0.4`, of axes that are not empty
abbrev is_cold : List OpportunityScore → Bool
is_cold [] = true
is_cold (s ∷ _) = ltb s.confidence 400

-- What the screening recommends of the claims, the axes and the fit.
unfoldable pub verdict :
    Floats → List Claim → List OpportunityScore → ℕ × Option String → Recommendation
unfolding recommend
verdict floats claims axes (fit, gate_reason) =
    recommend floats (map axis_value axes) fit
      (record { contradicted_critical = any_where is_critical claims }) (is_cold axes) gate_reason

abbrev pub memo_of : ℕ → Memo → Bool
memo_of opportunity m = m.opportunity_id == opportunity

-- `select(func.max(Memo.version))`
unfoldable pub latest_memo : ℕ → List Memo → ℕ
unfolding max_where
latest_memo opportunity = max_where (λ m. m.version) (memo_of opportunity)

-- The memo is ready: the opportunity waits for a decision.
abbrev pub memo_ready : ℕ → Opportunity → Opportunity
memo_ready now o = record o {
  stage = OpportunityStage.decision;
  screened_at = some now;
  memo_ready_at = some now;
  version = o.version + 1;
}

abbrev pub set_fit : ℕ → Opportunity → Opportunity
set_fit fit o = record o { thesis_fit = some fit }

abbrev pub save_opportunity : ℕ → (Opportunity → Opportunity) → Db → Db
save_opportunity id g = set_opportunities (update_where (has_id id) g)

abbrev pub passed_prescreen : ℕ → PrescreenResult
passed_prescreen opportunity = record {
  opportunity_id = opportunity;
  passed = true;
  rules_fired = [];
  latency_ms = 1;
}

abbrev pub done_step : ℕ → AgentStep
done_step job = record {
  job_id = job;
  seq = 6;
  agent = "pipeline";
  action = "done";
  status = "succeeded";
  progress = 10000;
  message = "Decision-support package is ready.";
}
