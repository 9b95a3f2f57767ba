-- ===== src/Records/People.antt =====
-- People and where they are found: founders and their scores, sources, signals and channels
-- (backend/app/db/models.py). Weights, confidences and strengths are in thousandths, and a score
-- event's `delta` is in hundredths.
use dolphin_vc.Base.{ℕ, String, Bool, Option, List}
use dolphin_vc.Types.{SourceTier, SourceStatus, SignalKind, TrendKind}

-- `identities` stands in `links`, as does `work_samples`.
pub record Person : Type 0 where
  pub id : ℕ
  pub display_name : String
  pub normalized_name : String
  pub headline : Option String
  pub bio : Option String
  pub emails : List String
  pub links : List (String × String)
  pub identities : List (String × String)
  pub work_samples : List String
  pub education : List String
  pub employment : List String
  pub last_signal_at : Option ℕ
  pub signal_count : ℕ
  pub source_count : ℕ
  pub is_stub : Bool
  pub merged_into_id : Option ℕ
  pub created_at : ℕ

pub record Affiliation : Type 0 where
  pub person_id : ℕ
  pub company_id : ℕ
  pub role : String
  pub is_founder : Bool
  pub confidence : ℕ

pub record FounderScore : Type 0 where
  pub person_id : ℕ
  pub score : ℕ
  pub ci_low : ℕ
  pub ci_high : ℕ
  pub confidence : ℕ
  pub cold_start : Bool
  pub trend : TrendKind
  pub version : ℕ

pub record FounderScoreEvent : Type 0 where
  pub person_id : ℕ
  pub component : String
  pub delta : ℕ
  pub weight : ℕ
  pub reason : String
  pub signal_id : Option ℕ
  pub occurred_at : ℕ

pub record FounderScoreSnapshot : Type 0 where
  pub person_id : ℕ
  pub day : ℕ
  pub score : ℕ
  pub confidence : ℕ

pub record Source : Type 0 where
  pub id : ℕ
  pub key : String
  pub display_name : String
  pub tier : SourceTier
  pub status : SourceStatus
  pub reliability : ℕ
  pub last_ok_at : Option ℕ
  pub last_error_at : Option ℕ
  pub last_error : Option String

-- One guess of a connector at who stands behind a signal.
pub record IdentityHint : Type 0 where
  pub provider : String
  pub value : String
  pub confidence : ℕ

-- `company_name`, `stars` and `identity_hints` stand in the payload.
pub record Signal : Type 0 where
  pub id : ℕ
  pub org_id : ℕ
  pub source_id : ℕ
  pub kind : SignalKind
  pub external_id : Option String
  pub url : Option String
  pub title : Option String
  pub body : Option String
  pub company_name : Option String
  pub stars : ℕ
  pub identity_hints : List IdentityHint
  pub content_hash : String
  pub person_id : Option ℕ
  pub company_id : Option ℕ
  pub strength : Option ℕ
  pub observed_at : ℕ

pub record SourcingChannel : Type 0 where
  pub id : ℕ
  pub key : String
  pub label : String
  pub kind : String
  pub discovered_count : ℕ
  pub advanced_count : ℕ

pub record ChannelEdge : Type 0 where
  pub channel_id : ℕ
  pub person_id : Option ℕ
  pub company_id : Option ℕ
  pub weight : ℕ

pub record KbChunk : Type 0 where
  pub org_id : Option ℕ
  pub scope : String
  pub person_id : Option ℕ
  pub company_id : Option ℕ
  pub signal_id : Option ℕ
  pub chunk_index : ℕ
  pub title : Option String
  pub content : String
  pub content_hash : String
  pub token_count : ℕ
  pub source_id : Option ℕ
  pub source_url : Option String
  pub observed_at : Option ℕ
