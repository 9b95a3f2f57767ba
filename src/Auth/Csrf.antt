-- ===== src/Auth/Csrf.antt =====
-- The double-submitted CSRF token of `refresh_endpoint` (backend/app/routers/auth.py).
use dolphin_vc.Base.{String, ◌≡◌, false, Option, none, some, arith}
use dolphin_vc.Errors.{ErrorCode, app_error, err}
use dolphin_vc.Session.{request}
use dolphin_vc.Auth.Model.{AuthDb, Library, Draw, Client}
use dolphin_vc.Auth.Tokens.{truthy, csrf_matches, refresh_endpoint, refresh_with}

module _ (lib : Library) (token csrf_cookie csrf_header : Option String) (draw : Draw)
    (client : Client) (db : AuthDb) where
  -- A refresh whose body has no token field, and whose CSRF header does not match its CSRF cookie,
  -- is refused with 403 and changes nothing, though the cookie has a token.
  csrf_guards_cookie :
      (raw : String)
      → truthy token ≡ some raw
      → csrf_matches csrf_cookie csrf_header ≡ false
      → request (refresh_endpoint lib none token csrf_cookie csrf_header draw client) db
        ≡ (err (app_error ErrorCode.forbidden "CSRF token is missing or invalid." 403), db)
  unfolding refresh_endpoint
  csrf_guards_cookie raw given bad = ground arith

  -- A refresh whose body has the empty text for a token goes on with the token of the cookie,
  -- whatever its CSRF header and cookie are.
  empty_body_skips_csrf :
      (raw : String)
      → truthy token ≡ some raw
      → request (refresh_endpoint lib (some "") token csrf_cookie csrf_header draw client) db
        ≡ request (refresh_with lib raw draw client) db
  unfolding refresh_endpoint
  empty_body_skips_csrf raw given = ground arith
