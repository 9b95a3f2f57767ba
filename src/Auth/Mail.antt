-- ===== src/Auth/Mail.antt =====
-- Mail tokens, passwords and sessions: `create_email_token` and `consume_email_token` of
-- backend/app/services/auth.py and the handlers of backend/app/routers/auth.py that commit them.
use dolphin_vc.Base.{
  ℕ, ◌+◌, ◌*◌, String, Bool, not, ◌&&◌, Option, none, some, [], ◌∷◌, ◌++◌, leb, ◌==◌, if◌then◌else◌,
  is_none, str_eq, find_where, update_where,
}
use dolphin_vc.Errors.{
  AppError, ErrorCode, Result, app_error, authentication_required, unauthenticated_error,
}
use dolphin_vc.Session.{Tx, pure, raise, query, modify, commit, or_raise, raise_if, ◌>>=◌, ◌>>◌}
use dolphin_vc.Auth.Model.{User, EmailToken, AuthDb, Library, Draw, Principal}
use dolphin_vc.Auth.Tokens.{
  truthy, find_user, revoke_where, revoke_refresh, live_of_user, in_family,
}
use dolphin_vc.Auth.Accounts.{validate_password, password_matches, set_users}

-- `record.used_at = now`
abbrev pub use_at : ℕ → EmailToken → EmailToken
use_at now t = record t { used_at = some now }

abbrev pub expired_link : AppError
expired_link = app_error ErrorCode.token_expired "The token is invalid or expired." 401

abbrev user_of : Principal → Tx AuthDb ℕ
user_of p = or_raise p.user_id authentication_required

-- Every token of the family that is the caller's is revoked, a second time if need be.
unfoldable pub delete_session_endpoint : ℕ → Principal → Draw → Tx AuthDb (Unit {0})
delete_session_endpoint family_id principal draw = do
  user_id ← user_of principal
  modify (
      revoke_where (λ t. (t.user_id == user_id) && in_family family_id t) draw.now
        "session_revoked")
  commit

module _ (lib : Library) where
  -- `timedelta(hours=1 if purpose == "reset" else 24)`
  abbrev token_ttl : String → ℕ
  token_ttl purpose = if str_eq purpose "reset" then 3600 else 24 * 3600

  unfoldable create_email_token : User → String → Draw → Tx AuthDb String
  create_email_token user purpose draw = do
    modify (λ db. record db {
      email_tokens =
          db.email_tokens
          ++ record {
            id = draw.row_id;
            user_id = user.id;
            purpose = purpose;
            token_hash = lib.hash_token draw.raw_token;
            expires_at = draw.now + token_ttl purpose;
            used_at = none;
          }
            ∷ [];
    })
    pure draw.raw_token

  -- The unused token that the raw text names, for this purpose.
  abbrev pub is_usable : String → String → EmailToken → Bool
  is_usable raw purpose t =
      str_eq t.token_hash (lib.hash_token raw) && (str_eq t.purpose purpose && is_none t.used_at)

  unfoldable consume_found : Option EmailToken → Draw → Tx AuthDb User
  consume_found none draw = raise expired_link
  consume_found (some t) draw = if leb t.expires_at draw.now then raise expired_link else do
    found ← query (find_user t.user_id)
    user ← or_raise found authentication_required
    modify (λ db. record db {
      email_tokens = update_where (λ x. x.id == t.id) (use_at draw.now) db.email_tokens;
    })
    pure user

  unfoldable consume_email_token : String → String → Draw → Tx AuthDb User
  unfolding consume_found
  consume_email_token raw purpose draw = do
    found ← query (λ db. find_where (is_usable raw purpose) db.email_tokens)
    consume_found found draw

  abbrev check : Result (Unit {0}) → Tx AuthDb (Unit {0})
  check r c = (r, c)

  abbrev set_password : ℕ → String → AuthDb → AuthDb
  set_password user_id password = set_users (
      update_where (λ x. x.id == user_id)
        (λ x. record x { password_hash = some (lib.hash_password password) }))

  unfoldable pub reset_password_endpoint : String → String → Draw → Tx AuthDb (Unit {0})
  unfolding consume_email_token validate_password
  reset_password_endpoint raw password draw = do
    user ← consume_email_token raw "reset" draw
    check (validate_password lib password user.email)
    modify (set_password user.id password)
    modify (revoke_where (live_of_user user.id) draw.now "password_reset")
    commit

  unfoldable verify_email_endpoint : String → Draw → Tx AuthDb (Unit {0})
  unfolding consume_email_token
  verify_email_endpoint raw draw = do
    user ← consume_email_token raw "verify" draw
    modify (
        set_users (
          update_where (λ x. x.id == user.id)
            (λ x. record x { email_verified_at = some draw.now })))
    commit

  unfoldable forgot_password_endpoint : String → Draw → Tx AuthDb (Unit {0})
  unfolding create_email_token
  forgot_password_endpoint email draw = do
    found ← query (λ db. find_where (λ u. str_eq u.email (lib.casefold email)) db.users)
    elim found [ none ↦ pure tt | some user ↦ do create_email_token user "reset" draw; commit ]

  unfoldable logout_endpoint : Option String → Bool → Principal → Draw → Tx AuthDb (Unit {0})
  unfolding revoke_refresh
  logout_endpoint raw all_devices principal draw = do
    user_id ← user_of principal
    revoke_refresh lib raw user_id all_devices draw
    commit

  abbrev rename : Option String → User → User
  rename none u = u
  rename (some name) u = record u { full_name = name }

  abbrev text : Option String → String
  text none = ""
  text (some s) = s

  -- A new password wants the current one, and signs the account out everywhere.
  unfoldable change_password : Option String → Option String → User → Draw → Tx AuthDb (Unit {0})
  unfolding validate_password
  change_password none current user draw = pure tt
  change_password (some password) current user draw = do
    raise_if (not (password_matches lib (truthy user.password_hash) (text current)))
        (unauthenticated_error ErrorCode.unauthenticated "Current password is incorrect.")
    check (validate_password lib password user.email)
    modify (set_password user.id password)
    modify (revoke_where (live_of_user user.id) draw.now "password_changed")

  unfoldable pub update_me_endpoint :
      (full_name password current_password : Option String)
      → Principal
      → Draw
      → Tx AuthDb (Unit {0})
  unfolding change_password
  update_me_endpoint full_name password current_password principal draw = do
    user_id ← user_of principal
    found ← query (find_user user_id)
    user ← or_raise found authentication_required
    modify (set_users (update_where (λ x. x.id == user.id) (rename (truthy full_name))))
    change_password (truthy password) current_password user draw
    commit
