-- ===== src/Tests/Auth.antt =====
-- Authentication at work: a family that is rotated and replayed, logins, resets and sessions.
use dolphin_vc.Base.{
  update_where, ◌≡◌, refl, true, none, some, [], ◌∷◌, arith, All, find_where, update_where,
  count_where,
}
use dolphin_vc.Errors.{ok, err}
use dolphin_vc.Session.{request}
use dolphin_vc.Auth.Model.{RefreshToken, AuthDb, IssuedTokens, Principal}
use dolphin_vc.Auth.Tokens.{
  rotate_refresh_token, build_access_token, reuse_error, refresh_with, revoke,
}
use dolphin_vc.Auth.Rotation.{
  live_count, IsSingle, presented, refresh_with-IsSingle, reuse_kills_family, replay_after_rotation,
}
use dolphin_vc.Auth.Access.{token_principal, Credentials, get_current_principal, is_bearer}
use dolphin_vc.Auth.Permissions.{Vouched, get_current_principal-Vouched}
use dolphin_vc.Auth.Mail.{reset_password_endpoint}
use dolphin_vc.Auth.Lockout.{Attempt, IsUnlocked, after_logins, after_logins-IsUnlocked}
use dolphin_vc.Tests.Fixtures.{lib, draw, client, token, auth_db, analyst}

abbrev issued : IssuedTokens
issued = record { access_token = "j2"; refresh_token = "new"; expires_in = 900 }

abbrev rotated : AuthDb
rotated = (request (refresh_with lib "a" (draw 100) client) auth_db).1

rotation_returns : (request (refresh_with lib "a" (draw 100) client) auth_db).0 ≡ ok issued
unfolding refresh_with rotate_refresh_token find_where update_where build_access_token
rotation_returns = refl

replay_after_rotation_example :
    let (r, second) = request (refresh_with lib "a" (draw 200) client) rotated in
    (r ≡ err reuse_error)
    × ((row : RefreshToken) × (presented lib "a" auth_db ≡ some row)
        × (live_count row.family_id second ≡ 0))
replay_after_rotation_example =
    replay_after_rotation lib "a" (draw 100) (draw 200) client client auth_db issued
      rotation_returns

abbrev revoked_db : AuthDb
revoked_db = record auth_db {
  refresh_tokens =
      revoke 50 "rotated" (token 2 1 20 "a") ∷ token 8 1 20 "next" ∷ token 3 1 30 "b" ∷ [];
}

reuse_kills_family_example :
    let (r, db') = request (refresh_with lib "a" (draw 100) client) revoked_db in
    (r ≡ err reuse_error) × (live_count 20 db' ≡ 0)
unfolding find_where
reuse_kills_family_example =
    reuse_kills_family lib "a" (draw 100) client revoked_db (revoke 50 "rotated" (token 2 1 20 "a"))
      (ground arith) refl

auth_db-IsSingle : IsSingle auth_db
unfolding count_where
auth_db-IsSingle = record { at_family = λ f. ground arith }

refresh_with-IsSingle_example : IsSingle rotated
refresh_with-IsSingle_example =
    refresh_with-IsSingle lib "a" (draw 100) client auth_db auth_db-IsSingle

abbrev bearer : Credentials
bearer = record { scheme = "bearer"; token = "jwt" }

abbrev ann_principal : Principal
ann_principal = record analyst { token_jti = some "j1" }

get_current_principal-Vouched_example :
    (c : Credentials) × (some bearer ≡ some c)
    × (is_bearer lib c ≡ true)
    × Vouched lib 100 c auth_db ann_principal
unfolding get_current_principal token_principal find_where
get_current_principal-Vouched_example =
    get_current_principal-Vouched lib 100 (some bearer) none auth_db ann_principal refl

abbrev guess : Attempt
guess = record { email = "ann@fund.vc"; password = "wrong"; draw = draw 100; client = client }

-- Two more failures, the first of which is the fifth in a row.
after_logins-IsUnlocked_example :
    All IsUnlocked (after_logins lib (guess ∷ guess ∷ guess ∷ []) auth_db).users
after_logins-IsUnlocked_example =
    after_logins-IsUnlocked lib (guess ∷ guess ∷ guess ∷ []) auth_db (refl, tt)

-- A reset that succeeds.
reset_done :
    (request (reset_password_endpoint lib "mail" "a new passphrase" (draw 100)) auth_db).0 ≡ ok tt
unfolding reset_password_endpoint find_where
reset_done = ground arith
