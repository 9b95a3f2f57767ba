-- ===== src/Auth/Model.antt =====
-- The rows and the database that authentication works on (backend/app/db/models.py), what it takes
-- from outside, and the principal of a request.
use dolphin_vc.Base.{ℕ, Bool, Option, List, String}
use dolphin_vc.Types.{UserRole}
use dolphin_vc.Records.{Thesis}

pub record Org : Type 0 where
  pub id : ℕ
  pub name : String
  pub slug : String

pub record User : Type 0 where
  pub id : ℕ
  pub org_id : ℕ
  pub email : String
  pub password_hash : Option String
  pub full_name : String
  pub role : UserRole
  pub is_active : Bool
  pub email_verified_at : Option ℕ
  pub last_login_at : Option ℕ
  pub failed_logins : ℕ
  pub locked_until : Option ℕ

pub record RefreshToken : Type 0 where
  pub id : ℕ
  pub user_id : ℕ
  pub token_hash : String
  pub family_id : ℕ
  pub parent_id : Option ℕ
  pub user_agent : Option String
  pub ip : Option String
  pub expires_at : ℕ
  pub revoked_at : Option ℕ
  pub revoked_reason : Option String

pub record EmailToken : Type 0 where
  pub id : ℕ
  pub user_id : ℕ
  pub purpose : String
  pub token_hash : String
  pub expires_at : ℕ
  pub used_at : Option ℕ

pub record ApiKey : Type 0 where
  pub id : ℕ
  pub org_id : ℕ
  pub key_hash : String
  pub scopes : List String
  pub expires_at : Option ℕ
  pub revoked_at : Option ℕ

pub record AuditLog : Type 0 where
  pub org_id : Option ℕ
  pub actor_user_id : Option ℕ
  pub actor_kind : String
  pub action : String
  pub target_type : Option String
  pub target_id : Option ℕ

pub record OrgInvite : Type 0 where
  pub id : ℕ
  pub org_id : ℕ
  pub email : String
  pub role : UserRole
  pub token_hash : String
  pub created_by : Option ℕ
  pub expires_at : ℕ
  pub accepted_at : Option ℕ

pub record AuthDb : Type 0 where
  pub orgs : List Org
  pub users : List User
  pub refresh_tokens : List RefreshToken
  pub email_tokens : List EmailToken
  pub api_keys : List ApiKey
  pub audit_log : List AuditLog
  pub invites : List OrgInvite
  pub theses : List Thesis

-- The settings that authentication reads (backend/app/config.py).
pub record Settings : Type 0 where
  pub jwt_access_ttl_min : ℕ
  pub jwt_refresh_ttl_days : ℕ
  pub service_token : Option String

-- The claims of an access token, less the issuer and the audience, which JWT checks.
pub record AccessPayload : Type 0 where
  pub sub : ℕ
  pub org : ℕ
  pub role : UserRole
  pub scopes : List String
  pub jti : String
  pub typ : String
  pub iat : ℕ
  pub exp : ℕ

-- What `jwt.decode` ends in: the claims, an `ExpiredSignatureError`, or another error; claims whose
-- ids do not parse, which are refused alike, count as invalid.
pub data Decoded : Type 0 where
  payload : AccessPayload → Decoded
  expired : Decoded
  invalid : Decoded

-- The libraries that authentication calls: text folding, SHA-256, Argon2 and JWT, the settings
-- within.
pub record Library : Type 0 where
  pub casefold : String → String
  pub hash_token : String → String
  pub hash_password : String → String
  pub verify : String → String → Bool
  pub jwt_encode : AccessPayload → String
  pub jwt_decode : ℕ → String → Decoded
  pub settings : Settings

-- The clock and the random draws of one request, in seconds and as row ids and texts.
pub record Draw : Type 0 where
  pub now : ℕ
  pub row_id : ℕ
  pub family_id : ℕ
  pub raw_token : String
  pub jti : String

pub record IssuedTokens : Type 0 where
  pub access_token : String
  pub refresh_token : String
  pub expires_in : ℕ

-- Where the request came from.
pub record Client : Type 0 where
  pub user_agent : Option String
  pub ip : Option String

pub record Principal : Type 0 where
  pub org_id : ℕ
  pub user_id : Option ℕ
  pub role : UserRole
  pub scopes : List String
  pub token_jti : Option String
  pub kind : String
