-- ===== src/Auth/Access.antt =====
-- Who a request acts for and what it may do: `Principal.has` and `decode_access_token` of
-- backend/app/services/auth.py, `get_current_principal` and `require` of backend/app/deps.py.
use text.Mathlib.Text.{starts_with}
use dolphin_vc.Base.{
  ℕ, String, Bool, false, not, ◌&&◌, ◌||◌, Option, none, some, [], ◌∷◌, ◌==◌, if◌then◌else◌,
  is_none, str_eq, find_where, any_where,
}
use dolphin_vc.Types.{UserRole, Permission, same_permission, role_permissions}
use dolphin_vc.Errors.{
  ErrorCode, Result, ok, err, authentication_required, forbidden_error, unauthenticated_error,
}
use dolphin_vc.Auth.Model.{
  User, ApiKey, AuthDb, AccessPayload, payload, expired, invalid, Library, Principal,
}
use dolphin_vc.Auth.Tokens.{permission_value, truthy}

-- `Principal.has`: by the role, or by a scope that spells the permission.
unfoldable pub has : Principal → Permission → Bool
has principal permission =
    any_where (same_permission permission) (role_permissions principal.role)
    || any_where (str_eq (permission_value permission)) principal.scopes

-- The dependency that `require(permission)` makes, once the principal is known.
unfoldable pub require : Permission → Principal → Result Principal
unfolding has
require permission principal =
    if has principal permission then ok principal else err forbidden_error

-- An `Authorization` header: its scheme and its credentials.
pub record Credentials : Type 0 where
  pub scheme : String
  pub token : String

abbrev pub is_service_token : Option String → String → Bool
is_service_token none token = false
is_service_token (some s) token = str_eq token s

module _ (lib : Library) where
  unfoldable pub decode_access_token : ℕ → String → Result AccessPayload
  decode_access_token now token = elim (lib.jwt_decode now token) [
    | payload p ↦ if str_eq p.typ "access" then ok p else err authentication_required
    | expired ↦ err (unauthenticated_error ErrorCode.token_expired "The access token has expired.")
    | invalid ↦ err authentication_required
  ]

  -- A request with the service token acts for the organisation that its header names; `x_org_id`
  -- is the header as a parsed id.
  unfoldable pub service_principal : Option ℕ → AuthDb → Result Principal
  service_principal none db = err (
      unauthenticated_error ErrorCode.unauthenticated
        "Service token requests require a valid X-Org-Id header.")
  service_principal (some org_id) db =
      if is_none (find_where (λ o. o.id == org_id) db.orgs)
      then err authentication_required
      else ok (record {
        org_id = org_id;
        user_id = none;
        role = UserRole.service;
        scopes =
            permission_value Permission.read
            ∷ permission_value Permission.screen
            ∷ permission_value Permission.admin
            ∷ [];
        token_jti = none;
        kind = "service";
      })

  abbrev pub live_key : String → ApiKey → Bool
  live_key token k = str_eq k.key_hash (lib.hash_token token) && is_none k.revoked_at

  abbrev key_principal : Option ApiKey → Result Principal
  key_principal none = err authentication_required
  key_principal (some k) = ok (record {
    org_id = k.org_id;
    user_id = none;
    role = UserRole.service;
    scopes = k.scopes;
    token_jti = none;
    kind = "api_key";
  })

  unfoldable pub api_key_principal : String → AuthDb → Result Principal
  api_key_principal token db = key_principal (find_where (live_key token) db.api_keys)

  abbrev user_principal : AccessPayload → Option User → Result Principal
  user_principal p none =
      err (unauthenticated_error ErrorCode.token_revoked "Account is unavailable.")
  user_principal p (some u) =
      if u.is_active
      then ok (record {
        org_id = u.org_id;
        user_id = some u.id;
        role = u.role;
        scopes = p.scopes;
        token_jti = some p.jti;
        kind = "user";
      })
      else err (unauthenticated_error ErrorCode.token_revoked "Account is unavailable.")

  unfoldable pub token_principal : ℕ → String → AuthDb → Result Principal
  unfolding decode_access_token
  token_principal now token db = elim (decode_access_token now token) [
    | ok p ↦ user_principal p (find_where (λ u. (u.id == p.sub) && (u.org_id == p.org)) db.users)
    | err e ↦ err e
  ]

  abbrev pub is_bearer : Credentials → Bool
  is_bearer c = str_eq (lib.casefold c.scheme) "bearer"

  unfoldable pub get_current_principal :
      ℕ → Option Credentials → Option ℕ → AuthDb → Result Principal
  get_current_principal now none x_org_id db = err authentication_required
  get_current_principal now (some c) x_org_id db =
      if not (str_eq (lib.casefold c.scheme) "bearer")
      then err authentication_required
      else if is_service_token (truthy lib.settings.service_token) c.token
      then service_principal x_org_id db
      else if starts_with c.token "vcb_live_"
      then api_key_principal c.token db
      else token_principal now c.token db
