-- ===== src/Session.antt =====
-- backend/app/db/session.py and `get_db` of backend/app/deps.py: one request or worker job works on
-- one session. What it writes stands in the session until `commit`; a session that closes, after a
-- return or a raise, drops what was not committed.
use dolphin_vc.Base.{
  false, true, ◌≡◌, refl, ap, arith, arith, ◌≡◌, Bool, Option, none, some, if◌then◌else◌,
}
use dolphin_vc.Errors.{AppError, Result, ok, err}

pub record Conn (S : Type 0) : Type 0 where
  pub committed : S
  pub working : S

abbrev pub Tx : Type 0 → Type 0 → Type 0
Tx S A = Conn S → Result A × Conn S

module _ {S A : Type 0} where
  abbrev pub pure : A → Tx S A
  pure a c = (ok a, c)

  abbrev pub raise : AppError → Tx S A
  raise e c = (err e, c)

  -- A query sees what the session has written.
  abbrev pub query : (S → A) → Tx S A
  query f c = (ok (f c.working), c)

  abbrev pub or_raise : Option A → AppError → Tx S A
  or_raise none e = raise e
  or_raise (some a) _ = pure a

-- What follows a part of the code: it goes on where the part has returned.
abbrev pub resume : {S A B : Type 0} → (A → Tx S B) → Result A × Conn S → Result B × Conn S
resume f (r, c) = elim r [ ok a ↦ f a c | err e ↦ (err e, c) ]

infixl 5 ◌>>=◌ ◌>>◌
abbrev pub ◌>>=◌ : {S A B : Type 0} → Tx S A → (A → Tx S B) → Tx S B
(m >>= f) c = resume f (m c)

abbrev pub ◌>>◌ : {S A B : Type 0} → Tx S A → Tx S B → Tx S B
m >> k = m >>= λ _. k

-- What is handled of a part that has raised.
abbrev pub rescue : {S A : Type 0} → (AppError → Tx S A) → Result A × Conn S → Result A × Conn S
rescue handle (r, c) = elim r [ ok a ↦ (ok a, c) | err e ↦ handle e c ]

-- `try: m except Exception as exc: handle(exc)`; the session keeps what it had.
abbrev pub catch : {S A : Type 0} → Tx S A → (AppError → Tx S A) → Tx S A
catch m handle c = rescue handle (m c)

module _ {S : Type 0} where
  abbrev pub modify : (S → S) → Tx S (Unit {0})
  modify f c = (ok tt, record c { working = f c.working })

  -- `session.commit()`
  abbrev pub commit : Tx S (Unit {0})
  commit c = (ok tt, record c { committed = c.working })

  abbrev pub raise_if : Bool → AppError → Tx S (Unit {0})
  raise_if b e c = (if b then err e else ok tt, c)

  -- A fresh session on a database, and what is in the database when it has closed.
  abbrev pub connect : S → Conn S
  connect s = record { committed = s; working = s }

abbrev pub request : {S A : Type 0} → Tx S A → S → Result A × S
request m s = let (r, c) = m (connect s) in (r, c.committed)

-- Code keeps a property of the session, whether it returns or raises.
abbrev pub Keeps : {S A : Type 0} → (Conn S → Type 0) → Tx S A → Type 0
Keeps P m = (c : Conn _) → P c → P (m c).1

module _ {S A B : Type 0} where
  -- What runs behind a part that has returned.
  pub bind_run :
      (m : Tx S A) (f : A → Tx S B) (c c' : Conn S) (a : A)
      → m c ≡ (ok a, c')
      → (m >>= f) c ≡ f a c'
  bind_run m f c c' a h = ap (resume f) h

  returned :
      (p : Result A × Conn S) (f : A → Tx S B) (c'' : Conn S) (b : B)
      → resume f p ≡ (ok b, c'')
      → (a : A) × (c' : Conn S) × (p ≡ (ok a, c')) × (f a c' ≡ (ok b, c''))
  returned (ok a, c') f c'' b h = (a, c', refl, h)
  returned (err e, c') f c'' b h = absurd (ground arith)

  -- Code that returned has returned from its first part.
  pub bind_returned :
      (m : Tx S A) (f : A → Tx S B) (c c'' : Conn S) (b : B)
      → (m >>= f) c ≡ (ok b, c'')
      → (a : A) × (c' : Conn S) × (m c ≡ (ok a, c')) × (f a c' ≡ (ok b, c''))
  bind_returned m f c c'' b h = returned (m c) f c'' b h

module _ {S A B : Type 0} (P : Conn S → Type 0) where
  pub resume-Keeps :
      (p : Result A × Conn S) (f : A → Tx S B)
      → P p.1
      → ((a : A) → Keeps P (f a))
      → P (resume f p).1
  resume-Keeps (ok a, c) f h keep = keep a c h
  resume-Keeps (err e, c) f h keep = h

  pub bind-Keeps :
      (m : Tx S A) (f : A → Tx S B) → Keeps P m → ((a : A) → Keeps P (f a)) → Keeps P (m >>= f)
  bind-Keeps m f keep keep' c h = resume-Keeps (m c) f (keep c h) keep'

module _ {S A : Type 0} (P : Conn S → Type 0) where
  rescue-Keeps :
      (p : Result A × Conn S) (handle : AppError → Tx S A)
      → P p.1
      → ((e : AppError) → Keeps P (handle e))
      → P (rescue handle p).1
  rescue-Keeps (ok a, c) handle h keep = h
  rescue-Keeps (err e, c) handle h keep = keep e c h

  pub catch-Keeps :
      (m : Tx S A) (handle : AppError → Tx S A)
      → Keeps P m
      → ((e : AppError) → Keeps P (handle e))
      → Keeps P (catch m handle)
  catch-Keeps m handle keep keep' c h = rescue-Keeps (m c) handle (keep c h) keep'

  pub if-Keeps : (b : Bool) (m k : Tx S A) → Keeps P m → Keeps P k → Keeps P (if b then m else k)
  if-Keeps true m k hm hk = hm
  if-Keeps false m k hm hk = hk

module _ {S A B : Type 0} (P Q : Conn S → Type 0) where
  resume-Leads :
      (p : Result A × Conn S) (f : A → Tx S B)
      → P p.1
      → ((c : Conn S) → P c → Q c)
      → ((a : A) (c : Conn S) → P c → Q (f a c).1)
      → Q (resume f p).1
  resume-Leads (ok a, c) f h raised returns = returns a c h
  resume-Leads (err e, c) f h raised returns = raised c h

  -- What a first part keeps leads to what holds behind the whole.
  pub bind-Leads :
      (m : Tx S A) (f : A → Tx S B)
      → Keeps P m
      → ((c : Conn S) → P c → Q c)
      → ((a : A) (c : Conn S) → P c → Q (f a c).1)
      → (c : Conn S) → P c
      → Q ((m >>= f) c).1
  bind-Leads m f keep raised returns c h = resume-Leads (m c) f (keep c h) raised returns

-- Code that returns leaves `Q`, and code that raises leaves `P`.
abbrev pub Ends : {S A : Type 0} → (P Q : Conn S → Type 0) → Result A × Conn S → Type 0
Ends P Q (r, c) = elim r [ ok a ↦ Q c | err e ↦ P c ]

module _ {S A B : Type 0} (P Q : Conn S → Type 0) where
  resume-Ends :
      (p : Result A × Conn S) (f : A → Tx S B)
      → P p.1
      → ((a : A) (c : Conn S) → P c → Ends P Q (f a c))
      → Ends P Q (resume f p)
  resume-Ends (ok a, c) f h keep = keep a c h
  resume-Ends (err e, c) f h keep = h

  pub bind-Ends :
      (m : Tx S A) (f : A → Tx S B)
      → Keeps P m
      → ((a : A) (c : Conn S) → P c → Ends P Q (f a c))
      → (c : Conn S) → P c
      → Ends P Q ((m >>= f) c)
  bind-Ends m f keep keep' c h = resume-Ends (m c) f (keep c h) keep'
