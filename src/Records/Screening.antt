-- ===== src/Records/Screening.antt =====
-- The rows that screening works on (backend/app/db/models.py).
-- Ids are numbers; instants are seconds; amounts are whole hundredths or thousandths, as their
-- columns hold them.
use dolphin_vc.Base.{ℕ, String, Bool, Option, List}
use dolphin_vc.Types.{
  OpportunityStage, OpportunityOrigin, DecisionKind, AxisKind, TrendKind, MarketStance, ClaimStatus,
  ClaimCategory, JobStatus, OutreachStatus, ApplicationStatus,
}

pub record Company : Type 0 where
  pub id : ℕ
  pub name : String
  pub normalized_name : String
  pub domain : Option String
  pub sectors : List String
  pub stage : Option String
  pub hq_country : Option String
  pub one_liner : Option String
  pub description : Option String
  pub links : List (String × String)
  pub is_stub : Bool
  pub last_signal_at : Option ℕ
  pub merged_into_id : Option ℕ

pub record Thesis : Type 0 where
  pub id : ℕ
  pub org_id : ℕ
  pub name : String
  pub is_default : Bool
  pub sectors : List String
  pub anti_sectors : List String
  pub stages : List String
  pub geos : List String
  pub check_size_min : Option ℕ
  pub check_size_max : Option ℕ
  pub currency : String
  pub ownership_target_pct : Option ℕ
  pub risk_appetite : ℕ
  pub weights : List (String × ℕ)
  pub must_haves : List String
  pub deal_breakers : List String
  pub notes : Option String
  pub version : ℕ
  pub deleted_at : Option ℕ

pub record Application : Type 0 where
  pub id : ℕ
  pub org_id : ℕ
  pub opportunity_id : Option ℕ
  pub company_name : String
  pub deck_document_id : Option ℕ
  pub contact_email : Option String
  pub contact_name : Option String
  pub website : Option String
  pub artifacts : List String
  pub notes : Option String
  pub status : ApplicationStatus
  pub submitted_ip : Option String
  pub source_channel : Option String
  pub received_at : ℕ
  pub tracking_token_hash : Option String

pub record Opportunity : Type 0 where
  pub id : ℕ
  pub org_id : ℕ
  pub company_id : ℕ
  pub thesis_id : Option ℕ
  pub origin : OpportunityOrigin
  pub stage : OpportunityStage
  pub title : Option String
  pub thesis_fit : Option ℕ
  pub first_signal_at : ℕ
  pub screened_at : Option ℕ
  pub memo_ready_at : Option ℕ
  pub decided_at : Option ℕ
  pub sla_deadline_at : ℕ
  pub decision : Option DecisionKind
  pub decision_by : Option ℕ
  pub decision_rationale : Option String
  pub assigned_to : Option ℕ
  pub updated_at : ℕ
  pub version : ℕ

pub record OpportunityScore : Type 0 where
  pub opportunity_id : ℕ
  pub axis : AxisKind
  pub score : ℕ
  pub confidence : ℕ
  pub trend : TrendKind
  pub stance : Option MarketStance
  pub rationale : String
  pub version : ℕ

pub record Claim : Type 0 where
  pub id : ℕ
  pub org_id : ℕ
  pub opportunity_id : ℕ
  pub company_id : Option ℕ
  pub category : ClaimCategory
  pub predicate : String
  pub text : String
  pub value_num : Option ℕ
  pub value_unit : Option String
  pub status : ClaimStatus
  pub trust_score : ℕ
  pub verification_note : Option String
  pub extracted_by : Option String

pub record Evidence : Type 0 where
  pub id : ℕ
  pub claim_id : ℕ
  pub document_id : Option ℕ
  pub source_id : ℕ
  pub page : Option ℕ
  pub snippet : String
  pub supports : Bool
  pub independence_group : Option String
  pub observed_at : Option ℕ

-- What the handlers put into `Job.input`.
pub record JobInput : Type 0 where
  pub opportunity_id : Option ℕ
  pub application_id : Option ℕ
  pub document_id : Option ℕ
  pub retry_of : Option ℕ
  pub signal_id : Option ℕ
  pub is_public : Option Bool
  pub query : Option String
  pub limit : Option ℕ
  pub channels : Option (List String)
  pub memo_id : Option ℕ
  pub section : Option String
  pub format : Option String

-- What a job leaves in `Job.result`: a screening names its opportunity, memo and recommendation, a
-- harvest its counts, the jobs that it made and its failures, each of a source with a reason. An
-- export of a memo leaves that no adapter is configured.
pub data JobResult : Type 0 where
  screened : ℕ → ℕ → DecisionKind → JobResult
  harvested : ℕ → ℕ → List ℕ → List (String × String) → JobResult
  not_exported : JobResult

pub record Job : Type 0 where
  pub id : ℕ
  pub org_id : Option ℕ
  pub kind : String
  pub status : JobStatus
  pub target_type : Option String
  pub target_id : Option ℕ
  pub idempotency_key : Option String
  pub progress : ℕ
  pub current_step : Option String
  pub input : JobInput
  pub result : Option JobResult
  pub error_code : Option String
  pub error_message : Option String
  pub attempts : ℕ
  pub started_at : Option ℕ
  pub finished_at : Option ℕ
  pub heartbeat_at : Option ℕ
  pub created_at : ℕ

pub record AgentStep : Type 0 where
  pub job_id : ℕ
  pub seq : ℕ
  pub agent : String
  pub action : String
  pub status : String
  pub progress : ℕ
  pub message : String

-- A row of the audit log; `idempotency_key` stands in its `meta`.
pub record AuditLog : Type 0 where
  pub org_id : Option ℕ
  pub actor_user_id : Option ℕ
  pub actor_kind : String
  pub action : String
  pub target_type : Option String
  pub target_id : Option ℕ
  pub decision : DecisionKind
  pub idempotency_key : String

pub record Outreach : Type 0 where
  pub id : ℕ
  pub org_id : ℕ
  pub person_id : ℕ
  pub opportunity_id : Option ℕ
  pub status : OutreachStatus
  pub subject : String
  pub body : String
  pub approved_by : Option ℕ
  pub sent_at : Option ℕ
  pub rejection_reason : Option String
