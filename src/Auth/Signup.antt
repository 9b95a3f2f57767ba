-- ===== src/Auth/Signup.antt =====
-- `signup` of backend/app/services/auth.py and `signup_endpoint` of backend/app/routers/auth.py.
use dolphin_vc.Types.{UserRole}
use dolphin_vc.Session.{query, modify, commit, ◌>>=◌, ◌>>◌, pure, raise, Tx}
use dolphin_vc.Auth.Tokens.{truthy, issue_tokens}
use dolphin_vc.Auth.Slugs.{free_slug}
use dolphin_vc.Auth.Accounts.{validate_password}
use dolphin_vc.Records.{Thesis}
use dolphin_vc.Errors.{ok, err, conflict_error, ErrorCode, app_error, Result, AppError}
use dolphin_vc.Auth.Model.{IssuedTokens, Client, AuthDb, User, OrgInvite, Org, Library, Draw}
use Prim.Native.String.{◌++◌ as append}
use dolphin_vc.Base.{
  ℕ, String, Bool, true, false, not, ◌&&◌, ◌||◌, Option, none, some, [], ◌∷◌, ◌++◌, leb, ◌==◌,
  if◌then◌else◌, is_none, str_eq, find_where, update_where, any_where,
}

-- The body of the request.
pub record SignupRequest : Type 0 where
  pub email : String
  pub password : String
  pub full_name : String
  pub org_name : Option String
  pub invite_token : Option String

-- The clock, the ids of the rows and the draws of the tokens.
pub record SignupDraw : Type 0 where
  pub token : Draw
  pub org_id : ℕ
  pub user_id : ℕ
  pub thesis_id : ℕ

abbrev pub email_is : String → User → Bool
email_is email u = str_eq u.email email

abbrev pub invite_of : String → OrgInvite → Bool
invite_of hash i = str_eq i.token_hash hash && is_none i.accepted_at

abbrev pub accept : ℕ → OrgInvite → OrgInvite
accept now i = record i { accepted_at = some now }

-- The thesis that a new organisation starts with; weights and risk appetite are in hundredths.
abbrev starting_thesis : ℕ → ℕ → Thesis
starting_thesis id org_id = record {
  id = id;
  org_id = org_id;
  name = "Default early-stage thesis";
  is_default = true;
  sectors = [];
  anti_sectors = [];
  stages = "pre_seed" ∷ "seed" ∷ [];
  geos = "remote" ∷ [];
  check_size_min = none;
  check_size_max = none;
  currency = "USD";
  ownership_target_pct = none;
  risk_appetite = 50;
  weights = ("founder", 45) ∷ ("market", 30) ∷ ("idea_vs_market", 25) ∷ [];
  must_haves = [];
  deal_breakers = [];
  notes = none;
  version = 1;
  deleted_at = none;
}

abbrev pub invitation_invalid : AppError
invitation_invalid = app_error ErrorCode.token_expired "Invitation is invalid or expired." 401

-- Where the account goes: the organisation, the role, and the invitation that led there.
pub record Place : Type 0 where
  pub org : Org
  pub role : UserRole
  pub invite : Option OrgInvite

module _ (lib : Library) (show : ℕ → String) (slugify : String → String) (draw : SignupDraw) where
  unfoldable pub invited_org : OrgInvite → Option Org → Tx AuthDb Place
  invited_org i none =
      raise (app_error ErrorCode.token_revoked "Invitation organization is unavailable." 401)
  invited_org i (some org) = pure (record { org = org; role = i.role; invite = some i })

  abbrev pub is_refused : String → OrgInvite → Bool
  is_refused email i = leb i.expires_at draw.token.now || not (str_eq (lib.casefold i.email) email)

  -- The organisation of an invitation that is open and meant for the email.
  unfoldable pub join_by : String → Option OrgInvite → Tx AuthDb Place
  unfolding invited_org
  join_by email none = raise invitation_invalid
  join_by email (some i) = if is_refused email i then raise invitation_invalid else do
    found ← query (λ db. find_where (λ (o : Org). o.id == i.org_id) db.orgs)
    invited_org i found

  -- `org_name or f"{full_name}'s fund"`
  abbrev pub fund_name : SignupRequest → String
  fund_name body = elim (truthy body.org_name) [
    | none ↦ append body.full_name "'s fund"
    | some name ↦ name
  ]

  -- A new organisation under the slug; there always is one (Auth/Termination).
  unfoldable pub found_org : String → Option String → Tx AuthDb Place
  found_org name none = raise (app_error ErrorCode.internal_error "slug" 500)
  found_org name (some slug) = do
    modify (λ db. record db {
      orgs = db.orgs ++ record { id = draw.org_id; name = name; slug = slug } ∷ [];
    })
    pure (record {
      org = record { id = draw.org_id; name = name; slug = slug };
      role = UserRole.owner;
      invite = none;
    })

  unfoldable pub place : SignupRequest → String → Option String → Tx AuthDb Place
  unfolding join_by found_org free_slug
  place body email (some token) = do
    found ← query (λ db. find_where (invite_of (lib.hash_token token)) db.invites)
    join_by email found
  place body email none = do
    slug ← query (λ db. free_slug show (slugify (fund_name body)) db.orgs)
    found_org (fund_name body) slug

  abbrev pub new_user : SignupRequest → String → Place → User
  new_user body email p = record {
    id = draw.user_id;
    org_id = p.org.id;
    email = email;
    password_hash = some (lib.hash_password body.password);
    full_name = body.full_name;
    role = p.role;
    is_active = true;
    email_verified_at = none;
    last_login_at = none;
    failed_logins = 0;
    locked_until = none;
  }

  -- A new organisation gets a thesis; an invitation is used up.
  abbrev pub settle_place : Place → AuthDb → AuthDb
  settle_place p db = elim p.invite [
    | none ↦ record db { theses = db.theses ++ starting_thesis draw.thesis_id p.org.id ∷ [] }
    | some i ↦ record db {
      invites = update_where (λ (x : OrgInvite). x.id == i.id) (accept draw.token.now) db.invites;
    }
  ]

  -- The account in its place, and its first tokens.
  unfoldable pub create_account :
      SignupRequest → String → Client → Place → Tx AuthDb (User × Org × IssuedTokens)
  unfolding issue_tokens
  create_account body email client p = do
    modify (λ db. record db { users = db.users ++ new_user body email p ∷ [] })
    modify (settle_place p)
    tokens ← issue_tokens lib (new_user body email p) draw.token none none client
    pure (new_user body email p, p.org, tokens)

  -- The email is new, or the request is refused.
  unfoldable pub signup_unless :
      Bool → SignupRequest → String → Client → Tx AuthDb (User × Org × IssuedTokens)
  unfolding place create_account
  signup_unless true body email client =
      raise (conflict_error "An account with this email already exists." ErrorCode.conflict)
  signup_unless false body email client = do
    p ← place body email (truthy body.invite_token)
    create_account body email client p

  unfoldable pub signup_checked :
      Result (Unit {0}) → SignupRequest → String → Client → Tx AuthDb (User × Org × IssuedTokens)
  unfolding signup_unless
  signup_checked (err e) body email client = raise e
  signup_checked (ok _) body email client = do
    taken ← query (λ db. any_where (email_is email) db.users)
    signup_unless taken body email client

  unfoldable pub signup : SignupRequest → Client → Tx AuthDb (User × Org × IssuedTokens)
  unfolding signup_checked validate_password
  signup body client =
      let email = lib.casefold body.email in
      signup_checked (validate_password lib body.password email) body email client

  unfoldable pub signup_endpoint : SignupRequest → Client → Tx AuthDb (User × Org × IssuedTokens)
  unfolding signup
  signup_endpoint body client = do out ← signup body client; commit; pure out
