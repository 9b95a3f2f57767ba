-- ===== src/Tests/Fixtures.antt =====
-- Data for the tests: libraries that leave texts as they are, and a small organisation.
use dolphin_vc.Base.{ℕ, String, true, none, some, [], ◌∷◌, str_eq, if◌then◌else◌}
use dolphin_vc.Types.{UserRole}
use dolphin_vc.Auth.Model.{
  User, RefreshToken, EmailToken, AuthDb, Library, Draw, Client, Principal, payload, invalid,
}

abbrev pub lib : Library
lib = record {
  casefold = λ s. s;
  hash_token = λ s. s;
  hash_password = λ s. s;
  verify = str_eq;
  jwt_encode = λ p. p.jti;
  jwt_decode = λ now token.
      if str_eq token "jwt"
      then payload (record {
        sub = 1;
        org = 7;
        role = UserRole.analyst;
        scopes = [];
        jti = "j1";
        typ = "access";
        iat = 0;
        exp = 900;
      })
      else invalid;
  settings = record { jwt_access_ttl_min = 15; jwt_refresh_ttl_days = 30; service_token = none };
}

abbrev pub draw : ℕ → Draw
draw now = record { now = now; row_id = now; family_id = 90; raw_token = "new"; jti = "j2" }

abbrev pub client : Client
client = record { user_agent = none; ip = none }

abbrev pub ann : User
ann = record {
  id = 1;
  org_id = 7;
  email = "ann@fund.vc";
  password_hash = some "correct horse";
  full_name = "Ann";
  role = UserRole.analyst;
  is_active = true;
  email_verified_at = none;
  last_login_at = none;
  failed_logins = 4;
  locked_until = none;
}

abbrev pub token : ℕ → ℕ → ℕ → String → RefreshToken
token id user family hash = record {
  id = id;
  user_id = user;
  token_hash = hash;
  family_id = family;
  parent_id = none;
  user_agent = none;
  ip = none;
  expires_at = 1000;
  revoked_at = none;
  revoked_reason = none;
}

abbrev pub mail : EmailToken
mail = record {
  id = 5;
  user_id = 1;
  purpose = "reset";
  token_hash = "mail";
  expires_at = 1000;
  used_at = none;
}

-- One account with two sessions, and a session of another account.
abbrev pub auth_db : AuthDb
auth_db = record {
  orgs = [];
  users = ann ∷ [];
  refresh_tokens = token 2 1 20 "a" ∷ token 3 1 30 "b" ∷ token 4 2 40 "c" ∷ [];
  email_tokens = mail ∷ [];
  api_keys =
      record {
        id = 6;
        org_id = 7;
        key_hash = "vcb_live_k";
        scopes = "read" ∷ [];
        expires_at = some 1;
        revoked_at = none;
      }
      ∷ [];
  audit_log = [];
  invites = [];
  theses = [];
}

abbrev pub analyst : Principal
analyst = record {
  org_id = 7;
  user_id = some 1;
  role = UserRole.analyst;
  scopes = [];
  token_jti = none;
  kind = "user";
}
