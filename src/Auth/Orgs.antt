-- ===== src/Auth/Orgs.antt =====
-- The invitations and the deactivation of backend/app/routers/orgs.py. The permission of the
-- principal is checked by `require` (Auth/Access).
use dolphin_vc.Base.{
  ℕ, ◌+◌, ◌*◌, String, Bool, true, false, ◌&&◌, none, [], ◌∷◌, ◌++◌, ◌==◌, opt_is, find_where,
  update_where, any_where,
}
use dolphin_vc.Types.{UserRole}
use dolphin_vc.Errors.{ErrorCode, app_error, not_found_error, AppError}
use dolphin_vc.Session.{Tx, pure, query, modify, commit, or_raise, raise_if, ◌>>=◌, ◌>>◌}
use dolphin_vc.Auth.Model.{AuthDb, OrgInvite, User, Library, Draw, Principal}
use dolphin_vc.Auth.Signup.{email_is}

-- The roles that no invitation grants.
abbrev pub is_reserved : UserRole → Bool
is_reserved UserRole.owner = true
is_reserved UserRole.service = true
is_reserved _ = false

abbrev reserved_role : AppError
reserved_role =
    app_error ErrorCode.validation_error "Invitations cannot grant owner or service roles." 400

abbrev email_taken : AppError
email_taken = app_error ErrorCode.conflict "A user with this email already exists." 409

abbrev pub new_invite : Library → Draw → String → UserRole → Principal → OrgInvite
new_invite lib draw email role principal = record {
  id = draw.row_id;
  org_id = principal.org_id;
  email = lib.casefold email;
  role = role;
  token_hash = lib.hash_token draw.raw_token;
  created_by = principal.user_id;
  expires_at = draw.now + 7 * 86400;
  accepted_at = none;
}

-- `create_invite`: the invitation and its token
unfoldable pub create_invite :
    Library → Draw → String → UserRole → Principal → Tx AuthDb (OrgInvite × String)
create_invite lib draw email role principal = do
  raise_if (is_reserved role) reserved_role
  taken ← query (λ db. any_where (email_is (lib.casefold email)) db.users)
  raise_if taken email_taken
  modify (λ db. record db { invites = db.invites ++ new_invite lib draw email role principal ∷ [] })
  commit
  pure (new_invite lib draw email role principal, draw.raw_token)

abbrev pub org_member : ℕ → ℕ → User → Bool
org_member org id u = u.id == id && u.org_id == org

abbrev pub user_is : ℕ → User → Bool
user_is id u = u.id == id

abbrev pub deactivated : User → User
deactivated u = record u { is_active = false }

-- `deactivate_user`
unfoldable pub deactivate_user : ℕ → Principal → Tx AuthDb (Unit {0})
deactivate_user id principal = do
  raise_if (opt_is principal.user_id id)
      (app_error ErrorCode.unprocessable "Owners cannot deactivate themselves." 422)
  found ← query (λ db. find_where (org_member principal.org_id id) db.users)
  u ← or_raise found (not_found_error "User was not found.")
  modify (λ db. record db { users = update_where (user_is u.id) deactivated db.users })
  commit
