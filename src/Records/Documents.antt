-- ===== src/Records/Documents.antt =====
-- Documents, their pages, and the memos about opportunities (backend/app/db/models.py and
-- backend/app/services/memo.py).
use dolphin_vc.Base.{ℕ, String, Bool, Option, List}
use dolphin_vc.Types.{DecisionKind, ClaimStatus}

pub record Document : Type 0 where
  pub id : ℕ
  pub org_id : Option ℕ
  pub company_id : Option ℕ
  pub kind : String
  pub filename : Option String
  pub mime : Option String
  pub size_bytes : Option ℕ
  pub sha256 : String
  pub s3_key : String
  pub page_count : Option ℕ
  pub parse_status : String
  pub parser : Option String
  pub uploaded_by : Option ℕ
  pub created_at : ℕ

pub record DocumentPage : Type 0 where
  pub document_id : ℕ
  pub page_no : ℕ
  pub text : Option String
  pub ocr_used : Bool

-- One section of a memo, and who has edited it.
pub record Section : Type 0 where
  pub key : String
  pub title : String
  pub markdown : String
  pub claim_ids : List String
  pub gaps : List String
  pub edited_by : Option ℕ
  pub edited_at : Option ℕ

pub record Gap : Type 0 where
  pub field : String
  pub reason : String
  pub how_to_resolve : String

pub record Memo : Type 0 where
  pub id : ℕ
  pub org_id : ℕ
  pub opportunity_id : ℕ
  pub version : ℕ
  pub status : String
  pub sections : List Section
  pub recommendation : Option DecisionKind
  pub recommendation_rationale : Option String
  pub bear_case : Option String
  pub kill_criteria : List String
  pub gaps : List Gap
  pub trust_summary : List (ClaimStatus × ℕ)
  pub word_count : Option ℕ
  pub model_version : Option String

pub record PrescreenResult : Type 0 where
  pub opportunity_id : ℕ
  pub passed : Bool
  pub rules_fired : List String
  pub latency_ms : ℕ
