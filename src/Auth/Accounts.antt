-- ===== src/Auth/Accounts.antt =====
-- Passwords and login: `validate_password` and `login` of backend/app/services/auth.py, and
-- `login_endpoint` of backend/app/routers/auth.py.
use dolphin_vc.Base.{
  ℕ, ◌+◌, ◌*◌, String, Bool, false, not, ◌&&◌, ◌||◌, Option, none, some, List, ltb, leb, ◌==◌,
  if◌then◌else◌, str_eq, find_where, update_where,
}
use dolphin_vc.Base.Text.{char_count, before_at, contains}
use dolphin_vc.Errors.{
  AppError, ErrorCode, Result, ok, err, app_error, retry_error, unauthenticated_error,
}
use dolphin_vc.Session.{Tx, pure, raise, query, modify, commit, ◌>>=◌, ◌>>◌}
use dolphin_vc.Auth.Model.{User, AuthDb, Library, Draw, IssuedTokens, Client}
use dolphin_vc.Auth.Tokens.{truthy, issue_tokens}

abbrev common_password : String → Bool
common_password p =
    str_eq p "password1234"
    || (str_eq p "123456789012" || (str_eq p "qwertyuiop12" || str_eq p "letmeinplease"))

abbrev weak_password : String → AppError
weak_password message = app_error ErrorCode.validation_error message 400

abbrev login_refused : AppError
login_refused = unauthenticated_error ErrorCode.unauthenticated "Invalid email or password."

abbrev pub set_users : (List User → List User) → AuthDb → AuthDb
set_users f db = record db { users = f db.users }

module _ (lib : Library) where
  unfoldable pub validate_password : String → String → Result (Unit {0})
  unfolding char_count before_at contains
  validate_password password email =
      if ltb (char_count password) 12
      then err (weak_password "Password must contain at least 12 characters.")
      else let local_part = lib.casefold (before_at email) in
        if leb 4 (char_count local_part) && contains local_part (lib.casefold password)
        then err (weak_password "Password must not contain the email local-part.")
        else if common_password (lib.casefold password)
        then err (weak_password "Choose a less common password.")
        else ok tt

  abbrev pub password_matches : Option String → String → Bool
  password_matches none password = false
  password_matches (some h) password = lib.verify h password

  abbrev is_locked : Option ℕ → ℕ → Bool
  is_locked none now = false
  is_locked (some t) now = ltb now t

  -- One more failed login; the fifth locks the account for 15 minutes.
  unfoldable count_failure : ℕ → User → User
  count_failure now u =
      let failures = u.failed_logins + 1 in
      record u {
        failed_logins = failures;
        locked_until = if leb 5 failures then some (now + 15 * 60) else u.locked_until;
      }

  unfoldable pub count_success : ℕ → User → User
  count_success now u = record u {
    failed_logins = 0;
    locked_until = none;
    last_login_at = some now;
  }

  unfoldable login_user : Option User → String → Draw → Client → Tx AuthDb (User × IssuedTokens)
  unfolding count_failure count_success issue_tokens
  login_user none password draw client = raise login_refused
  login_user (some u) password draw client =
      if is_locked u.locked_until draw.now
      then raise (retry_error ErrorCode.rate_limited "Account is temporarily locked." 429 false 300)
      else if not (password_matches (truthy u.password_hash) password)
      then (do
        modify (set_users (update_where (λ x. x.id == u.id) (count_failure draw.now)))
        raise login_refused)
      else if not u.is_active
      then raise (unauthenticated_error ErrorCode.token_revoked "This account is disabled.")
      else (do
        modify (set_users (update_where (λ x. x.id == u.id) (count_success draw.now)))
        tokens ← issue_tokens lib u draw none none client
        pure (count_success draw.now u, tokens))

  unfoldable login : String → String → Draw → Client → Tx AuthDb (User × IssuedTokens)
  unfolding login_user
  login email password draw client = do
    found ← query (λ db. find_where (λ u. str_eq u.email (lib.casefold email)) db.users)
    login_user found password draw client

  -- `login_endpoint`: the commit stands behind the call, so a raise skips it.
  unfoldable pub login_endpoint : String → String → Draw → Client → Tx AuthDb (User × IssuedTokens)
  unfolding login
  login_endpoint email password draw client = do
    out ← login email password draw client
    commit
    pure out
