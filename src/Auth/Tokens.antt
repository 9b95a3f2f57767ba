-- ===== src/Auth/Tokens.antt =====
-- Access and refresh tokens: `build_access_token`, `issue_tokens`, `rotate_refresh_token` and
-- `revoke_refresh` of backend/app/services/auth.py, and the handlers that call them.
use dolphin_vc.Base.{
  ℕ, ◌+◌, ◌*◌, String, Bool, true, false, not, ◌&&◌, Option, none, some, List, [], ◌∷◌, ◌++◌, map,
  leb, ◌==◌, if◌then◌else◌, is_some, is_none, str_eq, find_where, update_where,
}
use dolphin_vc.Types.{Permission, role_permissions}
use dolphin_vc.Errors.{AppError, ErrorCode, app_error, unauthenticated_error}
use dolphin_vc.Session.{Tx, pure, raise, query, modify, commit, or_raise, raise_if, ◌>>=◌, ◌>>◌}
use dolphin_vc.Auth.Model.{
  User, RefreshToken, AuditLog, AuthDb, Library, Draw, IssuedTokens, Client,
}

-- The texts of the permissions, `Permission.value`.
unfoldable pub permission_value : Permission → String
permission_value Permission.read = "read"
permission_value Permission.screen = "opportunities:screen"
permission_value Permission.decide = "opportunities:decide"
permission_value Permission.thesis_write = "theses:write"
permission_value Permission.org_admin = "org:admin"
permission_value Permission.admin = "admin"

-- `row.revoked_at = now; row.revoked_reason = reason`
abbrev pub revoke : ℕ → String → RefreshToken → RefreshToken
revoke now reason t = record t { revoked_at = some now; revoked_reason = some reason }

abbrev pub is_live : RefreshToken → Bool
is_live t = is_none t.revoked_at

abbrev pub has_hash : String → RefreshToken → Bool
has_hash h t = str_eq t.token_hash h

abbrev pub in_family : ℕ → RefreshToken → Bool
in_family f t = t.family_id == f

abbrev pub live_in_family : ℕ → RefreshToken → Bool
live_in_family f t = in_family f t && is_live t

abbrev pub live_of_user : ℕ → RefreshToken → Bool
live_of_user u t = (t.user_id == u) && is_live t

abbrev set_tokens : (List RefreshToken → List RefreshToken) → AuthDb → AuthDb
set_tokens f db = record db { refresh_tokens = f db.refresh_tokens }

-- `session.execute(update(RefreshToken).where(p).values(revoked_at, revoked_reason))`
abbrev pub revoke_where : (RefreshToken → Bool) → ℕ → String → AuthDb → AuthDb
revoke_where p now reason = set_tokens (update_where p (revoke now reason))

abbrev add_audit : AuditLog → AuthDb → AuthDb
add_audit entry db = record db { audit_log = db.audit_log ++ entry ∷ [] }

-- The value of a text in a test: the empty text counts as missing.
abbrev pub truthy : Option String → Option String
truthy none = none
truthy (some s) = if str_eq s "" then none else some s

abbrev or_else : Option String → Option String → Option String
or_else none b = b
or_else (some a) _ = some a

abbrev same_text : Option String → Option String → Bool
same_text (some a) (some b) = str_eq a b
same_text _ _ = false

-- The negation of `not csrf_cookie or not csrf_header or csrf_cookie != csrf_header`.
unfoldable pub csrf_matches : Option String → Option String → Bool
csrf_matches csrf_cookie csrf_header = same_text (truthy csrf_cookie) (truthy csrf_header)

-- `family_id or uuid.uuid4()`
abbrev or_new : Option ℕ → ℕ → ℕ
or_new none f = f
or_new (some f) _ = f

-- `session.get(User, u)`
abbrev pub find_user : ℕ → AuthDb → Option User
find_user u db = find_where (λ x. x.id == u) db.users

abbrev active_user : Option User → Option User
active_user none = none
active_user (some u) = if u.is_active then some u else none

abbrev pub reuse_error : AppError
reuse_error = unauthenticated_error ErrorCode.token_revoked "Refresh token reuse was detected."

module _ (lib : Library) where
  -- The payload keeps the role's permissions in the order of the table; the source sorts their
  -- texts.
  unfoldable pub build_access_token : User → Draw → String
  build_access_token user draw = lib.jwt_encode (record {
    sub = user.id;
    org = user.org_id;
    role = user.role;
    scopes = map permission_value (role_permissions user.role);
    jti = draw.jti;
    typ = "access";
    iat = draw.now;
    exp = draw.now + lib.settings.jwt_access_ttl_min * 60;
  })

  -- The refresh token row that `issue_tokens` inserts.
  abbrev pub new_refresh : User → Draw → Option ℕ → Option ℕ → Client → RefreshToken
  new_refresh user draw family_id parent_id client = record {
    id = draw.row_id;
    user_id = user.id;
    token_hash = lib.hash_token draw.raw_token;
    family_id = or_new family_id draw.family_id;
    parent_id = parent_id;
    user_agent = client.user_agent;
    ip = client.ip;
    expires_at = draw.now + lib.settings.jwt_refresh_ttl_days * 86400;
    revoked_at = none;
    revoked_reason = none;
  }

  unfoldable pub issue_tokens : User → Draw → Option ℕ → Option ℕ → Client → Tx AuthDb IssuedTokens
  issue_tokens user draw family_id parent_id client = do
    modify (set_tokens (λ ts. ts ++ new_refresh user draw family_id parent_id client ∷ []))
    pure (record {
      access_token = build_access_token user draw;
      refresh_token = draw.raw_token;
      expires_in = lib.settings.jwt_access_ttl_min * 60;
    })

  -- A revoked token was presented again: the whole family is revoked, for good.
  unfoldable reuse_detected : RefreshToken → Draw → Tx AuthDb (User × IssuedTokens)
  reuse_detected row draw = do
    modify (revoke_where (live_in_family row.family_id) draw.now "reuse_detected")
    modify (
        add_audit (record {
          org_id = none;
          actor_user_id = some row.user_id;
          actor_kind = "token";
          action = "auth.refresh_reuse";
          target_type = some "refresh_family";
          target_id = some row.family_id;
        }))
    commit
    raise reuse_error

  -- The token is live: it is revoked as rotated, and its family goes on with a new one.
  unfoldable rotate_live : RefreshToken → Draw → Client → Tx AuthDb (User × IssuedTokens)
  unfolding issue_tokens
  rotate_live row draw client = do
    modify (revoke_where (λ t. t.id == row.id) draw.now "rotated")
    found ← query (find_user row.user_id)
    user ←
        or_raise (active_user found)
          (unauthenticated_error ErrorCode.token_revoked "Account is unavailable.")
    tokens ← issue_tokens user draw (some row.family_id) (some row.id) client
    pure (user, tokens)

  unfoldable rotate_found : Option RefreshToken → Draw → Client → Tx AuthDb (User × IssuedTokens)
  unfolding rotate_live reuse_detected
  rotate_found none draw client =
      raise (unauthenticated_error ErrorCode.token_revoked "Refresh token is invalid.")
  rotate_found (some row) draw client =
      if is_some row.revoked_at
      then reuse_detected row draw
      else if leb row.expires_at draw.now
      then (do
        modify (revoke_where (λ t. t.id == row.id) draw.now "expired")
        raise (unauthenticated_error ErrorCode.token_expired "Refresh token has expired."))
      else rotate_live row draw client

  unfoldable pub rotate_refresh_token : String → Draw → Client → Tx AuthDb (User × IssuedTokens)
  unfolding rotate_found
  rotate_refresh_token raw_token draw client = do
    row ← query (λ db. find_where (has_hash (lib.hash_token raw_token)) db.refresh_tokens)
    rotate_found row draw client

  -- `refresh_endpoint` from where it has the raw token: the rotation is committed only if it
  -- returns.
  unfoldable pub refresh_with : String → Draw → Client → Tx AuthDb IssuedTokens
  unfolding rotate_refresh_token
  refresh_with raw draw client = do out ← rotate_refresh_token raw draw client; commit; pure out.1

  -- The token of the body or, with a double-submitted CSRF token, of the cookie.
  unfoldable pub refresh_endpoint :
      (body cookie_token csrf_cookie csrf_header : Option String)
      → Draw
      → Client
      → Tx AuthDb IssuedTokens
  unfolding csrf_matches
  refresh_endpoint body cookie_token csrf_cookie csrf_header draw client = do
    raw ←
        or_raise (or_else (truthy body) (truthy cookie_token))
          (unauthenticated_error ErrorCode.token_revoked "Refresh token is required.")
    raise_if (is_none body && not (csrf_matches csrf_cookie csrf_header))
        (app_error ErrorCode.forbidden "CSRF token is missing or invalid." 403)
    refresh_with raw draw client

  revoke_one : Option String → ℕ → Draw → Tx AuthDb (Unit {0})
  revoke_one none user_id draw = pure tt
  revoke_one (some raw) user_id draw = do
    row ← query (λ db. find_where (has_hash (lib.hash_token raw)) db.refresh_tokens)
    elim row [
      | none ↦ pure tt
      | some t ↦
          if t.user_id == user_id
          then modify (revoke_where (λ x. x.id == t.id) draw.now "logout")
          else pure tt
    ]

  -- One token of the user, or all of them.
  unfoldable pub revoke_refresh : Option String → ℕ → Bool → Draw → Tx AuthDb (Unit {0})
  unfolding revoke_one
  revoke_refresh raw_token user_id true draw =
      modify (revoke_where (live_of_user user_id) draw.now "logout_all")
  revoke_refresh raw_token user_id false draw = revoke_one (truthy raw_token) user_id draw
