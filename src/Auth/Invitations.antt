-- ===== src/Auth/Invitations.antt =====
-- An invitation leads to the organisation that made it: `create_invite` of
-- backend/app/routers/orgs.py, then `signup` of backend/app/services/auth.py.
use text.Mathlib.TextEquality.{eq_iff}
use dolphin_vc.Base.{
  ==_refl, any_where-false→find_where, find_where-insert, update_where, inr, inl, ℕ, ◌≡◌, refl, ap,
  ◌∙◌, sym, str_eq, String, Bool, true, false, none, some, ◌∷◌, [], ◌++◌, List, ◌==◌, ◌<◌, ◌+◌, ◌*◌,
  leb, arith, find_where, any_where, Bool-cases,
}
use dolphin_vc.Types.{UserRole}
use dolphin_vc.Errors.{Result, ok}
use dolphin_vc.Session.{request, connect, Conn, resume, commit, pure, ◌>>◌}
use dolphin_vc.Auth.Model.{
  AuthDb, User, Org, OrgInvite, Library, Draw, Principal, Client, IssuedTokens,
}
use dolphin_vc.Auth.Accounts.{validate_password}
use dolphin_vc.Auth.Tokens.{truthy, issue_tokens}
use dolphin_vc.Auth.Signup.{
  accept, email_is, invite_of, SignupRequest, SignupDraw, signup_endpoint, signup, signup_checked,
  signup_unless, Place, is_refused, new_user, place, join_by, invited_org, create_account,
}
use dolphin_vc.Auth.Orgs.{is_reserved, new_invite, create_invite}

-- A row at the end is found where no row before it is.
find_where-last :
    (p : OrgInvite → Bool) (l : List OrgInvite) (a : OrgInvite)
    → find_where p l ≡ none
    → p a ≡ true
    → find_where p (l ++ a ∷ []) ≡ some a
unfolding find_where
find_where-last p [] a missing holds = ground arith
find_where-last p (x ∷ xs) a missing holds = ground (arith, find_where-last p xs a)

-- An open invitation that is alone under its hash is not found there once it is accepted.
accepted_is_closed :
    (hash : String) (id now : ℕ) (l : List OrgInvite) (a : OrgInvite)
    → find_where (invite_of hash) l ≡ none
    → (a.id == id) ≡ true
    → find_where
        (invite_of hash)
        (update_where (λ (x : OrgInvite). x.id == id) (accept now) (l ++ a ∷ []))
      ≡ none
unfolding find_where update_where
accepted_is_closed hash id now [] a missing same = ground arith
accepted_is_closed hash id now (x ∷ xs) a missing same =
    let rest = accepted_is_closed hash id now xs a in ground (arith, rest)

module _ (lib : Library) (drawn : Draw) (email : String) (role : UserRole) (admin : Principal) where
  -- What an invitation that is made has found and written.
  create_invite_lem :
      (db db' : AuthDb) (i : OrgInvite) (raw : String)
      → request (create_invite lib drawn email role admin) db ≡ (ok (i, raw), db')
      → (i ≡ new_invite lib drawn email role admin)
        × (raw ≡ drawn.raw_token)
        × (db' ≡ record db { invites = db.invites ++ i ∷ [] })
        × (any_where (email_is (lib.casefold email)) db.users ≡ false)
  unfolding create_invite
  create_invite_lem db db' i raw made = elim (Bool-cases (is_reserved role)) [
    | inl reserved ↦ absurd (ground arith)
    | inr granted ↦ elim (Bool-cases (any_where (email_is (lib.casefold email)) db.users)) [
      | inl taken ↦ absurd (ground arith)
      | inr free ↦ (ground arith, ground arith, ground arith, free)
    ]
  ]

  module _ (show : ℕ → String) (slugify : String → String) (draw : SignupDraw)
      (body : SignupRequest) (client : Client) where
    -- The account of an invitation's place, and its tokens.
    abbrev joining : Org → OrgInvite → Place
    joining o i = record { org = o; role = role; invite = some i }

    place_lem :
        (c : Conn AuthDb) (i : OrgInvite) (o : Org) (e raw : String)
        → i ≡ new_invite lib drawn email role admin
        → find_where (invite_of (lib.hash_token raw)) c.working.invites ≡ some i
        → find_where (λ (x : Org). x.id == admin.org_id) c.working.orgs ≡ some o
        → lib.casefold (lib.casefold email) ≡ e
        → leb (drawn.now + 7 * 86400) draw.token.now ≡ false
        → place lib show slugify draw body e (some raw) c ≡ (ok (joining o i), c)
    unfolding place join_by invited_org
    place_lem c i o e raw is found org same early =
        let meant : str_eq (lib.casefold i.email) e ≡ true =
          (eq_iff (lib.casefold i.email) e).1 (ground (arith, same)) in
        let to : i.org_id ≡ admin.org_id = ground arith in
        let at : find_where (λ (x : Org). x.id == i.org_id) c.working.orgs ≡ some o =
          ap (λ n. find_where (λ (x : Org). x.id == n) c.working.orgs) to ∙ org in
        let open' : is_refused lib show slugify draw e i ≡ false = ground arith in
        ap (λ r. join_by lib show slugify draw e r c) found ∙ rw (open', at) (ground (arith, is))

    -- An account in an invitation's place is inserted, and the invitation is marked accepted.
    create_account_lem :
        (c : Conn AuthDb) (e : String) (o : Org) (i : OrgInvite)
        → (tokens : IssuedTokens) × (c' : Conn AuthDb) × (create_account lib show slugify draw body
              e client
              (joining o i)
              c
            ≡ (ok (new_user lib show slugify draw body e (joining o i), o, tokens), c'))
          × (c'.working.users
              ≡ c.working.users ++ new_user lib show slugify draw body e (joining o i) ∷ [])
          × (c'.working.invites
              ≡ update_where
                  (λ (x : OrgInvite). x.id == i.id)
                  (accept draw.token.now)
                  c.working.invites)
    unfolding create_account issue_tokens
    create_account_lem c e o i = (_, _, refl, refl, refl)

    signup_lem :
        (c : Conn AuthDb) (raw : String) (p : Place)
        → truthy body.invite_token ≡ some raw
        → any_where (email_is (lib.casefold body.email)) c.working.users ≡ false
        → validate_password lib body.password (lib.casefold body.email) ≡ ok tt
        → place lib show slugify draw body (lib.casefold body.email) (some raw) c ≡ (ok p, c)
        → signup lib show slugify draw body client c
          ≡ create_account lib show slugify draw body (lib.casefold body.email) client p c
    unfolding signup signup_checked signup_unless
    signup_lem c raw p carried free valid placed = ground arith

    -- An invitation and a sign-up are a round trip: who signs up with the invitation's token and
    -- email (up to case), a valid password and within seven days is answered with an account of
    -- the inviting organisation with the invitation's role; that account is then the stored one of
    -- the email, and the token leads to no open invitation any more. It is assumed that the token's
    -- hash is new among the open invitations, that the organisation exists, and that folding case
    -- twice changes nothing more.
    pub create_invite-signup_endpoint :
        (db db' : AuthDb) (i : OrgInvite) (raw : String)
        → request (create_invite lib drawn email role admin) db ≡ (ok (i, raw), db')
        → (o : Org) → find_where (λ (x : Org). x.id == admin.org_id) db.orgs ≡ some o
        → find_where (invite_of (lib.hash_token raw)) db.invites ≡ none
        → truthy body.invite_token ≡ some raw
        → lib.casefold body.email ≡ lib.casefold email
        → lib.casefold (lib.casefold email) ≡ lib.casefold email
        → validate_password lib body.password (lib.casefold body.email) ≡ ok tt
        → draw.token.now < drawn.now + 7 * 86400
        → (u : User) × (tokens : IssuedTokens) × (stored : AuthDb) × (request
              (signup_endpoint lib show slugify draw body client)
              db'
            ≡ (ok (u, o, tokens), stored))
          × (u.org_id ≡ o.id)
          × (u.role ≡ role)
          × (find_where (email_is (lib.casefold email)) stored.users ≡ some u)
          × (find_where (invite_of (lib.hash_token raw)) stored.invites ≡ none)
    unfolding signup_endpoint
    create_invite-signup_endpoint db db' i raw made o org unused carried same idem valid early =
        let (is, same_raw, written, free) = create_invite_lem db db' i raw made in
        let hashed : invite_of (lib.hash_token raw) i ≡ true =
          let same_hash : str_eq i.token_hash (lib.hash_token raw) ≡ true =
            (eq_iff i.token_hash (lib.hash_token raw)).1 (ground (arith, is, same_raw)) in
          ground (arith, is) in
        let found : find_where (invite_of (lib.hash_token raw)) db'.invites ≡ some i =
          ap (λ d. find_where (invite_of (lib.hash_token raw)) d.invites) written
          ∙ find_where-last (invite_of (lib.hash_token raw)) db.invites i unused hashed in
        let free' : any_where (email_is (lib.casefold body.email)) db'.users ≡ false =
          ap (λ s. any_where (email_is s) db'.users) same
          ∙ ap (λ d. any_where (email_is (lib.casefold email)) d.users) written
          ∙ free in
        let placed =
          place_lem (connect db') i o (lib.casefold body.email) raw is found
            (ap (λ d. find_where (λ (x : Org). x.id == admin.org_id) d.orgs) written ∙ org)
            (idem ∙ sym same) (ground arith) in
        let (tokens, c', made', users, invites) =
          create_account_lem (connect db') (lib.casefold body.email) o i in
        let new_account =
          new_user lib show slugify draw body (lib.casefold body.email) (joining o i) in
        let absent : find_where (email_is (lib.casefold email)) db'.users ≡ none =
          any_where-false→find_where (email_is (lib.casefold email)) db'.users
            (sym (ap (λ s. any_where (email_is s) db'.users) same) ∙ free') in
        let mine : email_is (lib.casefold email) new_account ≡ true =
          (eq_iff (lib.casefold body.email) (lib.casefold email)).1 same in
        let signed =
          signup_lem (connect db') raw (joining o i) carried free' valid placed ∙ made' in
        (
          new_account,
          tokens,
          c'.working,
          ap
              (λ (r : Result (User × Org × IssuedTokens) × Conn AuthDb). (
                (resume (λ out. commit >> pure out) r).0,
                (resume (λ out. commit >> pure out) r).1.committed,
              ))
              signed,
          refl,
          refl,
          ap (find_where (email_is (lib.casefold email))) users
              ∙ find_where-insert (email_is (lib.casefold email)) (email_is (lib.casefold email))
                  db'.users new_account (λ y h. h) absent mine,
          ap (find_where (invite_of (lib.hash_token raw))) (
                invites
                ∙ ap
                    (λ d.
                      update_where (λ (x : OrgInvite). x.id == i.id) (accept draw.token.now)
                        d.invites)
                    written)
              ∙ accepted_is_closed (lib.hash_token raw) i.id draw.token.now db.invites i unused
                  (==_refl i.id),
        )
