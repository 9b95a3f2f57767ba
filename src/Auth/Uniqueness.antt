-- ===== src/Auth/Uniqueness.antt =====
-- Accounts and organisations after sign-ups (backend/app/services/auth.py).
use dolphin_vc.Errors.{ok, err, Result}
use dolphin_vc.Auth.Accounts.{validate_password}
use dolphin_vc.Auth.Termination.{free_slug-free}
use dolphin_vc.Auth.Tokens.{truthy, issue_tokens}
use dolphin_vc.Auth.Slugs.{free_slug, has_slug}
use dolphin_vc.Auth.Signup.{
  signup_unless, signup_endpoint, signup_checked, signup, new_user, invitation_invalid, is_refused,
  settle_place, fund_name, SignupRequest, Place, place, join_by, invited_org, found_org,
  create_account, email_is, SignupDraw,
}
use dolphin_vc.Session.{
  connect, pure, ◌>>◌, commit, bind-Keeps, request, bind-Leads, raise, if-Keeps, Keeps, Conn,
}
use dolphin_vc.Auth.Model.{User, Client, Org, OrgInvite, Library, AuthDb}
use text.Mathlib.TextEquality.{eq_iff}
use dolphin_vc.Base.{
  any_where-false→find_where, find_where-none→count_where, ℕ, ◌≤◌, ◌≡◌, refl, sym, inl, inr, String,
  Bool, true, false, Option, none, some, List, [], ◌∷◌, ◌++◌, arith, str_eq, any_where, count_where,
  Bool-cases, count_where-insert,
}

-- A row whose text no row has is put in: every text is still that of one row at most.
insert-Single :
    {A : Type 0} (key : A → String) (l : List A) (x : A)
    → any_where (λ y. str_eq (key y) (key x)) l ≡ false
    → ((k : String) → count_where (λ y. str_eq (key y) k) l ≤ 1)
    → (k : String) → count_where (λ y. str_eq (key y) k) (l ++ x ∷ []) ≤ 1
insert-Single key l x free h k = rw count_where-insert (elim (Bool-cases (str_eq (key x) k)) [
  | inl mine ↦
      let same = (eq_iff (key x) k).0 mine in
      let none_yet =
        find_where-none→count_where (λ y. str_eq (key y) k) l
          (any_where-false→find_where (λ y. str_eq (key y) k) l (rw (sym same) free)) in
      rw mine (omega arith)
  | inr other ↦ rw other (let few = h k in omega arith)
])

-- No two accounts have an email, and no two organisations a slug.
abbrev pub UniqueNames : AuthDb → Type 0
UniqueNames db =
    ((email : String) → count_where (email_is email) db.users ≤ 1)
    × ((slug : String) → count_where (has_slug slug) db.orgs ≤ 1)

abbrev Names : Conn AuthDb → Type 0
Names c = UniqueNames c.committed × UniqueNames c.working

-- The names are unique, and the email is not taken.
abbrev Open : String → Conn AuthDb → Type 0
Open email c = Names c × (any_where (email_is email) c.working.users ≡ false)

module _ (lib : Library) (show : ℕ → String) (slugify : String → String) (draw : SignupDraw) where
  invited_org-Open :
      (email : String) (i : OrgInvite) (found : Option Org)
      → Keeps (Open email) (invited_org lib show slugify draw i found)
  unfolding invited_org
  invited_org-Open email i none c h = h
  invited_org-Open email i (some org) c h = h

  join_by-Open :
      (email : String) (found : Option OrgInvite)
      → Keeps (Open email) (join_by lib show slugify draw email found)
  unfolding join_by
  join_by-Open email none = λ c h. h
  join_by-Open email (some i) =
      if-Keeps (Open email) (is_refused lib show slugify draw email i) (raise invitation_invalid) _
        (λ c h. h) (λ c h. invited_org-Open email i _ c h)

  found_org-Open :
      (email name base : String) (slug : Option String) (c : Conn AuthDb)
      → free_slug show base c.working.orgs ≡ slug
      → Open email c
      → Open email (found_org lib show slugify draw name slug c).1
  unfolding found_org
  found_org-Open email name base none c e h = h
  found_org-Open email name base (some slug) c e h = (
    (
      h.0.0,
      (
        h.0.1.0,
        insert-Single (λ (o : Org). o.slug) c.working.orgs
            (record { id = draw.org_id; name = name; slug = slug })
            (free_slug-free show base c.working.orgs slug e) h.0.1.1,
      ),
    ),
    h.1,
  )

  place-Open :
      (body : SignupRequest) (email : String) (token : Option String)
      → Keeps (Open email) (place lib show slugify draw body email token)
  unfolding place
  place-Open body email none c h =
      found_org-Open email (fund_name lib show slugify draw body)
        (slugify (fund_name lib show slugify draw body)) _ c refl h
  place-Open body email (some token) c h = join_by-Open email _ c h

  settle_place-Names :
      (p : Option OrgInvite) (q : Place) (db : AuthDb)
      → q.invite ≡ p
      → UniqueNames db
      → UniqueNames (settle_place lib show slugify draw q db)
  settle_place-Names none q db e h = rw e h
  settle_place-Names (some i) q db e h = rw e h

  create_account-Names :
      (body : SignupRequest) (email : String) (client : Client) (p : Place) (c : Conn AuthDb)
      → Open email c
      → Names (create_account lib show slugify draw body email client p c).1
  unfolding create_account issue_tokens
  create_account-Names body email client p c h =
      let u = new_user lib show slugify draw body email p in
      (
        h.0.0,
        settle_place-Names p.invite p (record (c.working) { users = c.working.users ++ u ∷ [] })
            refl (insert-Single (λ (x : User). x.email) c.working.users u h.1 h.0.1.0, h.0.1.1),
      )

  signup_unless-Names :
      (b : Bool) (body : SignupRequest) (email : String) (client : Client) (c : Conn AuthDb)
      → any_where (email_is email) c.working.users ≡ b
      → Names c
      → Names (signup_unless lib show slugify draw b body email client c).1
  unfolding signup_unless
  signup_unless-Names true body email client c e h = h
  signup_unless-Names false body email client c e h =
      bind-Leads (Open email) Names
        (place lib show slugify draw body email (truthy body.invite_token))
        (create_account lib show slugify draw body email client)
        (place-Open body email (truthy body.invite_token)) (λ c' h'. h'.0)
        (create_account-Names body email client) c (h, e)

  signup_checked-Names :
      (r : Result (Unit {0})) (body : SignupRequest) (email : String) (client : Client)
      → Keeps Names (signup_checked lib show slugify draw r body email client)
  unfolding signup_checked
  signup_checked-Names (err e) body email client c h = h
  signup_checked-Names (ok _) body email client c h =
      signup_unless-Names _ body email client c refl h

  signup-Names :
      (body : SignupRequest) (client : Client)
      → Keeps Names (signup lib show slugify draw body client)
  unfolding signup
  signup-Names body client =
      signup_checked-Names (validate_password lib body.password (lib.casefold body.email)) body
        (lib.casefold body.email) client

-- A sign-up, whatever it asks for and however it ends, keeps that no two accounts have an email and
-- no two organisations a slug: it refuses an email that is taken, and goes on to a free slug.
pub signup_endpoint-UniqueNames :
    (lib : Library) (show : ℕ → String) (slugify : String → String) (draw : SignupDraw)
    (body : SignupRequest) (client : Client) (db : AuthDb)
    → UniqueNames db
    → UniqueNames (request (signup_endpoint lib show slugify draw body client) db).1
unfolding signup_endpoint
signup_endpoint-UniqueNames lib show slugify draw body client db h =
    (bind-Keeps Names (signup lib show slugify draw body client) (λ out. commit >> pure out)
      (signup-Names lib show slugify draw body client) (λ out c h'. (h'.1, h'.1)) (connect db)
      (h, h)).0
