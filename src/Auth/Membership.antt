-- ===== src/Auth/Membership.antt =====
-- Who belongs to an organisation: what the deactivation of an account and an invitation lead to
-- (backend/app/routers/orgs.py, backend/app/services/auth.py, backend/app/deps.py).
use dolphin_vc.Base.{
  inr, inl, List, ℕ, ◌≡◌, ◌≢◌, ap, Bool, false, List, Option, some, [], ◌∷◌, opt_is, arith,
  find_where, update_where, find_where-holds, Option-cases, Bool-cases,
}
use dolphin_vc.Errors.{ok}
use dolphin_vc.Session.{request}
use dolphin_vc.Auth.Model.{AuthDb, User, Library, Principal}
use dolphin_vc.Auth.Access.{Credentials, get_current_principal}
use dolphin_vc.Auth.Permissions.{Vouched, owns, get_current_principal-Vouched}
use dolphin_vc.Auth.Orgs.{org_member, user_is, deactivated, deactivate_user}

-- An account found behind the deactivation of an id is not that account, or not active.
found_inactive :
    (p : User → Bool) (id : ℕ) (l : List User) (u : User)
    → find_where p (update_where (user_is id) deactivated l) ≡ some u
    → u.id ≡ id
    → u.is_active ≡ false
unfolding find_where update_where
found_inactive p id [] u found same = absurd (ground arith)
found_inactive p id (x ∷ xs) u found same = ground (arith, found_inactive p id xs u)

-- What a deactivation that returns has done.
deactivate_user_lem :
    (id : ℕ) (principal : Principal) (db db' : AuthDb)
    → request (deactivate_user id principal) db ≡ (ok tt, db')
    → db' ≡ record db { users = update_where (user_is id) deactivated db.users }
unfolding deactivate_user
deactivate_user_lem id principal db db' e = elim (Bool-cases (opt_is principal.user_id id)) [
  | inl self ↦ absurd (ground arith)
  | inr other ↦ elim (Option-cases (find_where (org_member principal.org_id id) db.users)) [
    | inl missing ↦ absurd (ground arith)
    | inr (u, found) ↦
        ground (arith, find_where-holds (org_member principal.org_id id) db.users u found)
  ]
]

module _ (lib : Library) (id : ℕ) (users : List User) (db' : AuthDb) (p : Principal) where
  Vouched-other :
      db'.users ≡ update_where (user_is id) deactivated users
      → (now : ℕ) (c : Credentials) → Vouched lib now c db' p
      → p.user_id ≢ some id
  Vouched-other done now c (Vouched.by_service o known found nobody) named = ground arith
  Vouched-other done now c (Vouched.by_key k found live org nobody) named = ground arith
  Vouched-other done now c (Vouched.by_user claims u decoded found active named' org role) named =
      ground (arith, found_inactive (owns claims) id users u)

module _ (lib : Library) where
  -- An account that an administrator deactivates is out at once: whatever credentials a later
  -- request presents, and at whatever time, it does not authenticate as that account.
  pub deactivated_user_out :
      (id : ℕ) (admin : Principal) (db db' : AuthDb)
      → request (deactivate_user id admin) db ≡ (ok tt, db')
      → (now : ℕ) (credentials : Option Credentials) (x_org_id : Option ℕ) (p : Principal)
      → get_current_principal lib now credentials x_org_id db' ≡ ok p
      → p.user_id ≢ some id
  deactivated_user_out id admin db db' done now credentials x_org_id p e =
      let (c, given, bearer, vouched) =
        get_current_principal-Vouched lib now credentials x_org_id db' p e in
      Vouched-other lib id db.users db' p
        (ap (λ d. d.users) (deactivate_user_lem id admin db db' done)) now c vouched
