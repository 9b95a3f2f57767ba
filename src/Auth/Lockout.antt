-- ===== src/Auth/Lockout.antt =====
-- What a sequence of logins leaves in the database (`login` of backend/app/services/auth.py and
-- `login_endpoint` of backend/app/routers/auth.py).
use dolphin_vc.Base.{
  String, ◌≡◌, refl, inl, inr, none, List, [], ◌∷◌, arith, All, All-update_where, ◌==◌, find_where,
  Option-cases, str_eq,
}
use dolphin_vc.Errors.{AppError, err}
use dolphin_vc.Session.{request}
use dolphin_vc.Auth.Model.{User, AuthDb, Library, Draw, Client}
use dolphin_vc.Auth.Accounts.{count_success, login_endpoint}

-- One login request.
pub record Attempt : Type 0 where
  pub email : String
  pub password : String
  pub draw : Draw
  pub client : Client

-- The account has no `locked_until`.
abbrev pub IsUnlocked : User → Type 0
IsUnlocked u = u.locked_until ≡ none

module _ (lib : Library) where
  -- The database behind a login request.
  unfoldable pub after_login : Attempt → AuthDb → AuthDb
  after_login a db = (request (login_endpoint lib a.email a.password a.draw a.client) db).1

  unfoldable pub after_logins : List Attempt → AuthDb → AuthDb
  after_logins [] db = db
  after_logins (a ∷ attempts) db = after_logins attempts (after_login a db)

  -- A login that is refused, for whatever reason, leaves the database as it was, the counter of
  -- failed logins included.
  refused_login_keeps_db :
      (a : Attempt) (db : AuthDb) (e : AppError)
      → (request (login_endpoint lib a.email a.password a.draw a.client) db).0 ≡ err e
      → after_login a db ≡ db
  unfolding after_login login_endpoint
  refused_login_keeps_db a db e h = ground arith

  after_login-IsUnlocked :
      (a : Attempt) (db : AuthDb)
      → All IsUnlocked db.users
      → All IsUnlocked (after_login a db).users
  unfolding after_login login_endpoint
  after_login-IsUnlocked a db h =
      elim (Option-cases (find_where (λ u. str_eq u.email (lib.casefold a.email)) db.users)) [
        | inl missing ↦ ground (arith, h)
        | inr (u, found) ↦ ground (
          arith,
          h,
          All-update_where IsUnlocked (λ x. x.id == u.id) (count_success lib a.draw.now) db.users
              (λ x old. refl) h,
        )
      ]

  -- No sequence of login requests, however many of them fail, sets `locked_until` of an account: if
  -- no account is locked before, none is after.
  pub after_logins-IsUnlocked :
      (attempts : List Attempt) (db : AuthDb)
      → All IsUnlocked db.users
      → All IsUnlocked (after_logins attempts db).users
  unfolding after_logins
  after_logins-IsUnlocked [] db h = h
  after_logins-IsUnlocked (a ∷ attempts) db h =
      after_logins-IsUnlocked attempts (after_login a db) (after_login-IsUnlocked a db h)
