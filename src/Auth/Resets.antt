-- ===== src/Auth/Resets.antt =====
-- Password reset by mail (`consume_email_token` of backend/app/services/auth.py and
-- `reset_password_endpoint` of backend/app/routers/auth.py), logout and deleted sessions.
use dolphin_vc.Base.{
  Option, ℕ, ◌≤◌, String, ◌≡◌, ◌≢◌, inl, inr, Bool, ◌&&◌, none, some, List, arith, bit, change,
  ◌==◌, count_where, find_where, update_where, Option-cases, count_where-update_where_none,
  count_where-update_where-lt, count_where-update_where-eq, count_where-zero→find_where, ==_eq,
  find_where-holds,
}
use dolphin_vc.Errors.{AppError, ok, err}
use dolphin_vc.Session.{request}
use dolphin_vc.Auth.Model.{User, EmailToken, RefreshToken, AuthDb, Library, Draw, Principal}
use dolphin_vc.Auth.Tokens.{revoke, live_of_user, find_user, in_family}
use dolphin_vc.Auth.Mail.{
  update_me_endpoint, is_usable, use_at, expired_link, reset_password_endpoint,
  delete_session_endpoint,
}

-- After the tokens of a user are revoked, none of them is live.
revoke_user_none :
    (user now : ℕ) (reason : String) (l : List RefreshToken)
    → count_where (live_of_user user) (update_where (live_of_user user) (revoke now reason) l) ≡ 0
revoke_user_none user now reason l =
    count_where-update_where_none (live_of_user user) (live_of_user user) (revoke now reason) l
      (λ t. ground arith)

-- A reset without a usable token is refused.
reset_missing :
    (lib : Library) (raw password : String) (draw : Draw) (db : AuthDb)
    → find_where (is_usable lib raw "reset") db.email_tokens ≡ none
    → request (reset_password_endpoint lib raw password draw) db ≡ (err expired_link, db)
unfolding reset_password_endpoint
reset_missing lib raw password draw db missing = ground arith

used-usable-le :
    (lib : Library) (raw : String) (now id : ℕ) (x : EmailToken)
    → bit (is_usable lib raw "reset" (change (λ y. y.id == id) (use_at now) x))
      ≤ bit (is_usable lib raw "reset" x)
used-usable-le lib raw now id x = ground arith

module _ (lib : Library) (raw password : String) (draw : Draw) (db : AuthDb) where
  -- A reset that is refused, because of the token, the account or the new password, changes
  -- nothing: the token can be used again.
  refused_reset_keeps_db :
      (e : AppError)
      → (request (reset_password_endpoint lib raw password draw) db).0 ≡ err e
      → (request (reset_password_endpoint lib raw password draw) db).1 ≡ db
  unfolding reset_password_endpoint
  refused_reset_keeps_db e h = ground arith

  -- What a reset that succeeds has found and written.
  reset_trace :
      (request (reset_password_endpoint lib raw password draw) db).0 ≡ ok tt
      → (t : EmailToken) × (u : User) × (find_where (is_usable lib raw "reset") db.email_tokens
          ≡ some t)
        × (find_user t.user_id db ≡ some u)
        × ((request (reset_password_endpoint lib raw password draw) db).1.refresh_tokens
            ≡ update_where (live_of_user u.id) (revoke draw.now "password_reset") db.refresh_tokens)
        × ((request (reset_password_endpoint lib raw password draw) db).1.email_tokens
            ≡ update_where (λ x. x.id == t.id) (use_at draw.now) db.email_tokens)
  unfolding reset_password_endpoint
  reset_trace h = elim (Option-cases (find_where (is_usable lib raw "reset") db.email_tokens)) [
    | inl missing ↦ absurd (ground arith)
    | inr (t, found) ↦ elim (Option-cases (find_user t.user_id db)) [
      | inl no_user ↦ absurd (ground arith)
      | inr (u, user) ↦ (t, u, found, user, ground arith, ground arith)
    ]
  ]

  -- A reset that succeeds leaves the account that the token was sent to without a live refresh
  -- token.
  reset_signs_out :
      (request (reset_password_endpoint lib raw password draw) db).0 ≡ ok tt
      → (t : EmailToken) × (find_where (is_usable lib raw "reset") db.email_tokens ≡ some t)
        × (count_where
              (live_of_user t.user_id)
              (request (reset_password_endpoint lib raw password draw) db).1.refresh_tokens
            ≡ 0)
  reset_signs_out h =
      let (t, u, found, user, revoked, used) = reset_trace h in
      let same = ==_eq u.id t.user_id (find_where-holds (λ x. x.id == t.user_id) db.users u user) in
      (t, found, rw (revoked, ← same) (revoke_user_none u.id draw.now "password_reset" _))

  -- A token that reset a password cannot do so again, at any later time: the second reset is
  -- refused, provided that no two usable tokens have the same text.
  reset_token_once :
      (password' : String) (draw' : Draw)
      → count_where (is_usable lib raw "reset") db.email_tokens ≤ 1
      → (request (reset_password_endpoint lib raw password draw) db).0 ≡ ok tt
      → let db' = (request (reset_password_endpoint lib raw password draw) db).1 in
        request (reset_password_endpoint lib raw password' draw') db' ≡ (err expired_link, db')
  reset_token_once password' draw' unique h =
      let (t, u, found, user, revoked, used) = reset_trace h in
      reset_missing lib raw password' draw'
        (request (reset_password_endpoint lib raw password draw) db).1
        (rw used (
          count_where-zero→find_where (is_usable lib raw "reset") _ (
            omega (
              arith,
              count_where-update_where-lt (is_usable lib raw "reset") (λ x. x.id == t.id)
                  (is_usable lib raw "reset") (use_at draw.now) db.email_tokens t
                  (used-usable-le lib raw draw.now t.id) found
                  (find_where-holds (is_usable lib raw "reset") db.email_tokens t found)
                  (ground arith),
            ))))

-- The tokens of one user in one family that are live.
abbrev live_session : ℕ → ℕ → RefreshToken → Bool
live_session user family t = live_of_user user t && in_family family t

-- Deleting a session revokes the caller's tokens of that family and no token of another user.
delete_session_isolated :
    (family me other : ℕ) (principal : Principal) (draw : Draw) (db : AuthDb)
    → principal.user_id ≡ some me
    → other ≢ me
    → let db' = (request (delete_session_endpoint family principal draw) db).1 in
      (count_where (live_session me family) db'.refresh_tokens ≡ 0)
      × (count_where (live_of_user other) db'.refresh_tokens
          ≡ count_where (live_of_user other) db.refresh_tokens)
unfolding delete_session_endpoint
delete_session_isolated family me other principal draw db e ne = (
  rw e (
      count_where-update_where_none (live_session me family)
        (λ t. (t.user_id == me) && in_family family t) (revoke draw.now "session_revoked")
        db.refresh_tokens (λ t. ground arith)),
  rw e (
      count_where-update_where-eq (live_of_user other)
        (λ t. (t.user_id == me) && in_family family t) (revoke draw.now "session_revoked")
        db.refresh_tokens (λ t. ground arith)),
)

-- A change of the account that is refused, because of the principal, the current password or the
-- new one, changes nothing, the name included.
refused_change_keeps_db :
    (lib : Library) (full_name password current : Option String) (principal : Principal)
    → (draw : Draw) (db : AuthDb) (e : AppError)
    → (request (update_me_endpoint lib full_name password current principal draw) db).0 ≡ err e
    → (request (update_me_endpoint lib full_name password current principal draw) db).1 ≡ db
unfolding update_me_endpoint
refused_change_keeps_db lib full_name none current principal draw db e h = ground arith
refused_change_keeps_db lib full_name (some new) current principal draw db e h = ground arith
