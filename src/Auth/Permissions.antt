-- ===== src/Auth/Permissions.antt =====
-- What authentication guarantees of a principal (backend/app/deps.py), and what roles may do.
use text.Mathlib.Text.{starts_with}
use dolphin_vc.Base.{
  ℕ, String, ◌≡◌, refl, inl, inr, Bool, true, Option, none, some, arith, ◌&&◌, ◌==◌, find_where,
  any_where, find_where-holds, Option-cases, Bool-cases,
}
use dolphin_vc.Types.{Permission, role_permissions}
use dolphin_vc.Errors.{Result-cases, ok}
use dolphin_vc.Auth.Model.{Org, User, ApiKey, AuthDb, Library, Principal, AccessPayload}
use dolphin_vc.Auth.Tokens.{truthy}
use dolphin_vc.Auth.Access.{
  is_bearer, is_service_token, Credentials, decode_access_token, require, api_key_principal,
  live_key, token_principal, service_principal, get_current_principal,
}

abbrev pub owns : AccessPayload → User → Bool
owns claims u = (u.id == claims.sub) && (u.org_id == claims.org)

-- Who vouches for a principal: the service token and an organisation that exists; a key with the
-- presented hash that is not revoked; or an access token, and an active account that it names, of
-- the same organisation and role.
pub data Vouched (lib : Library) (now : ℕ) (c : Credentials) (db : AuthDb) (p : Principal)
    : Type 0 where
  by_service :
      (o : Org)
      → is_service_token (truthy lib.settings.service_token) c.token ≡ true
      → find_where (λ x. x.id == p.org_id) db.orgs ≡ some o
      → p.user_id ≡ none
      → Vouched lib now c db p
  by_key :
      (k : ApiKey)
      → find_where (live_key lib c.token) db.api_keys ≡ some k
      → k.revoked_at ≡ none
      → k.org_id ≡ p.org_id
      → p.user_id ≡ none
      → Vouched lib now c db p
  by_user :
      (claims : AccessPayload) (u : User)
      → decode_access_token lib now c.token ≡ ok claims
      → find_where (owns claims) db.users ≡ some u
      → u.is_active ≡ true
      → p.user_id ≡ some u.id
      → u.org_id ≡ p.org_id
      → u.role ≡ p.role
      → Vouched lib now c db p

module _ (lib : Library) where
  module _ (now : ℕ) (c : Credentials) (db : AuthDb) (p : Principal) where
    service_principal-Vouched :
        (x_org_id : Option ℕ)
        → is_service_token (truthy lib.settings.service_token) c.token ≡ true
        → service_principal lib x_org_id db ≡ ok p
        → Vouched lib now c db p
    unfolding service_principal
    service_principal-Vouched none known e = absurd (ground arith)
    service_principal-Vouched (some org_id) known e =
        elim (Option-cases (find_where (λ o. o.id == org_id) db.orgs)) [
          | inl missing ↦ absurd (ground arith)
          | inr (o, found) ↦ Vouched.by_service o known (ground arith) (ground arith)
        ]

    api_key_principal-Vouched : api_key_principal lib c.token db ≡ ok p → Vouched lib now c db p
    unfolding api_key_principal
    api_key_principal-Vouched e =
        elim (Option-cases (find_where (live_key lib c.token) db.api_keys)) [
          | inl missing ↦ absurd (ground arith)
          | inr (k, found) ↦
              Vouched.by_key k found
                (ground (arith, find_where-holds (live_key lib c.token) db.api_keys k found))
                (ground arith) (ground arith)
        ]

    token_principal-Vouched : token_principal lib now c.token db ≡ ok p → Vouched lib now c db p
    unfolding token_principal
    token_principal-Vouched e = elim (Result-cases (decode_access_token lib now c.token)) [
      | inl (x, refused) ↦ absurd (ground arith)
      | inr (claims, decoded) ↦ elim (Option-cases (find_where (owns claims) db.users)) [
        | inl missing ↦ absurd (ground arith)
        | inr (u, found) ↦
            Vouched.by_user claims u decoded found (ground arith) (ground arith) (ground arith)
              (ground arith)
      ]
    ]

  -- A request that authenticates has bearer credentials, and its principal is vouched for: by the
  -- service token and an organisation that exists, by a key that has the token's hash and is not
  -- revoked, or by an access token that decodes and an active account that it names; the principal
  -- has that row's organisation, and an account's id and role, and it names no account elsewhere.
  pub get_current_principal-Vouched :
      (now : ℕ) (credentials : Option Credentials) (x_org_id : Option ℕ) (db : AuthDb)
      → (p : Principal) → get_current_principal lib now credentials x_org_id db ≡ ok p
      → (c : Credentials) × (credentials ≡ some c)
        × (is_bearer lib c ≡ true)
        × Vouched lib now c db p
  unfolding get_current_principal
  get_current_principal-Vouched now none x_org_id db p e = absurd (ground arith)
  get_current_principal-Vouched now (some c) x_org_id db p e = elim (Bool-cases (is_bearer lib c)) [
    | inr other ↦ absurd (ground arith)
    | inl bearer ↦ (
      c,
      refl,
      bearer,
      elim (Bool-cases (is_service_token (truthy lib.settings.service_token) c.token)) [
        | inl service ↦ service_principal-Vouched now c db p x_org_id service (ground arith)
        | inr not_service ↦ elim (Bool-cases (starts_with c.token "vcb_live_")) [
          | inl key ↦ api_key_principal-Vouched now c db p (ground arith)
          | inr not_key ↦ token_principal-Vouched now c db p (ground arith)
        ]
      ],
    )
  ]

  -- A request with a live API key passes the check for administration, whatever scopes the key was
  -- given.
  api_key_ignores_scopes :
      (token : String) (db : AuthDb) (p : Principal)
      → api_key_principal lib token db ≡ ok p
      → require Permission.admin p ≡ ok p
  unfolding api_key_principal require any_where role_permissions
  api_key_ignores_scopes token db p e = ground arith
