-- ===== src/Tests/Orgs.antt =====
-- Members of an organisation: one is deactivated, and one is invited and signs up.
use dolphin_vc.Base.{
  ◌≡◌, ◌≢◌, refl, none, some, [], ◌∷◌, arith, find_where, update_where, any_where,
}
use dolphin_vc.Types.{UserRole}
use dolphin_vc.Errors.{ok, err, ErrorCode, unauthenticated_error}
use dolphin_vc.Session.{request}
use dolphin_vc.Auth.Model.{Org, OrgInvite, User, AuthDb, IssuedTokens, Principal}
use dolphin_vc.Auth.Access.{Credentials, get_current_principal, token_principal}
use dolphin_vc.Auth.Accounts.{validate_password}
use dolphin_vc.Auth.Signup.{invite_of, email_is, SignupRequest, SignupDraw, signup_endpoint}
use dolphin_vc.Auth.Orgs.{deactivate_user, create_invite, new_invite}
use dolphin_vc.Auth.Membership.{deactivated_user_out}
use dolphin_vc.Auth.Invitations.{create_invite-signup_endpoint}
use dolphin_vc.Tests.Fixtures.{lib, draw, client, ann, auth_db, analyst}

abbrev olga : Principal
olga = record analyst { user_id = some 4; role = UserRole.owner }

abbrev bob : User
bob = record ann { id = 2; email = "bob@fund.vc" }

abbrev with_bob : AuthDb
with_bob = record auth_db { users = ann ∷ bob ∷ [] }

abbrev without_bob : AuthDb
without_bob = (request (deactivate_user 2 olga) with_bob).1

bob_is_out : request (deactivate_user 2 olga) with_bob ≡ (ok tt, without_bob)
unfolding deactivate_user find_where update_where
bob_is_out = refl

abbrev bearer : Credentials
bearer = record { scheme = "bearer"; token = "jwt" }

abbrev ann_principal : Principal
ann_principal = record analyst { token_jti = some "j1" }

-- The token of the other account still works.
ann_is_in : get_current_principal lib 100 (some bearer) none without_bob ≡ ok ann_principal
unfolding get_current_principal token_principal deactivate_user find_where update_where
ann_is_in = refl

deactivated_user_out_example : ann_principal.user_id ≢ some 2
deactivated_user_out_example =
    deactivated_user_out lib 2 olga with_bob without_bob bob_is_out 100 (some bearer) none
      ann_principal ann_is_in

-- The token of an account that is deactivated is refused.
ann_is_out :
    get_current_principal lib 100 (some bearer) none (request (deactivate_user 1 olga) with_bob).1
    ≡ err (unauthenticated_error ErrorCode.token_revoked "Account is unavailable.")
unfolding get_current_principal token_principal deactivate_user find_where update_where
ann_is_out = refl

abbrev fund : Org
fund = record { id = 7; name = "Fund"; slug = "fund" }

abbrev with_fund : AuthDb
with_fund = record auth_db { orgs = fund ∷ [] }

abbrev invite : OrgInvite
invite = new_invite lib (draw 100) "ben@fund.vc" UserRole.partner olga

abbrev invited : AuthDb
invited = record with_fund { invites = invite ∷ [] }

ben_is_invited :
    request (create_invite lib (draw 100) "ben@fund.vc" UserRole.partner olga) with_fund
    ≡ (ok (invite, "new"), invited)
unfolding create_invite any_where
ben_is_invited = refl

abbrev ben : SignupRequest
ben = record {
  email = "ben@fund.vc";
  password = "a long passphrase";
  full_name = "Ben";
  org_name = none;
  invite_token = some "new";
}

abbrev joining : SignupDraw
joining = record { token = draw 200; org_id = 8; user_id = 2; thesis_id = 3 }

create_invite-signup_endpoint_example :
    (u : User) × (tokens : IssuedTokens) × (stored : AuthDb) × (request
        (signup_endpoint lib (λ n. "") (λ s. s) joining ben client)
        invited
      ≡ (ok (u, fund, tokens), stored))
    × (u.org_id ≡ 7)
    × (u.role ≡ UserRole.partner)
    × (find_where (email_is (lib.casefold "ben@fund.vc")) stored.users ≡ some u)
    × (find_where (invite_of (lib.hash_token "new")) stored.invites ≡ none)
unfolding find_where validate_password
create_invite-signup_endpoint_example =
    create_invite-signup_endpoint lib (draw 100) "ben@fund.vc" UserRole.partner olga (λ n. "")
      (λ s. s) joining ben client with_fund invited invite "new" ben_is_invited fund refl refl refl
      refl refl refl (ground arith)
