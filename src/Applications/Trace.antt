-- ===== src/Applications/Trace.antt =====
-- What a submission that is not replayed leaves behind (`create_application` of
-- backend/app/services/applications.py).
use mathlib.Core.Path.{subst}
use dolphin_vc.Sourcing.Applicants.{ensure_application_founder}
use dolphin_vc.Opportunities.Commands.{live_for}
use dolphin_vc.Applications.Submit.{
  tracking_token, submitted_company, document_id_of, submitted_document, application_job,
  submit_opportunity, application_row, submit_document, submit_founder, submit, file_application,
  CreatedApplication, inbound, Submission, submitted_opportunity, SubmitDraw, SubmitTools,
}
use dolphin_vc.Base.{
  ap, false, Option, Bool-cases, ℕ, ◌≡◌, refl, sym, inl, inr, arith, Bool, true, some, List, [],
  ◌∷◌, ◌++◌, ◌==◌, ==_refl, find_where, Option-cases,
}
use dolphin_vc.Errors.{Result, ok}
use dolphin_vc.Session.{connect, bind_returned, Conn}
use dolphin_vc.Records.{Person, Document, Db, Application, Job, Opportunity, Company}
use dolphin_vc.Sourcing.Frame.{Here, Indifferent}
use dolphin_vc.Applications.Kept.{
  opportunity-Here, stored_deck-Here, company-Here, founder-Here, Filed,
}

module _ {A : Type 0} where
  -- A query finds a row where there is one that it selects.
  find_where-there :
      (p q : A → Bool) (l : List A) (a : A)
      → find_where p l ≡ some a
      → q a ≡ true
      → (x : A) × (find_where q l ≡ some x)
  unfolding find_where
  find_where-there p q [] a h e = absurd (ground arith)
  find_where-there p q (y ∷ ys) a h e = elim (Bool-cases (q y)) [
    | inl hit ↦ (y, rw hit refl)
    | inr miss ↦ elim (Bool-cases (p y)) [
      | inl first ↦ absurd (ground arith)
      | inr later ↦
          let (x, found) = find_where-there p q ys a (ground arith) e in (x, rw miss found)
    ]
  ]

  find_where-added :
      (q : A → Bool) (l : List A) (a : A)
      → q a ≡ true
      → (x : A) × (find_where q (l ++ a ∷ []) ≡ some x)
  unfolding find_where
  find_where-added q [] a e = (a, rw e refl)
  find_where-added q (y ∷ ys) a e = elim (Bool-cases (q y)) [
    | inl hit ↦ (y, rw hit refl)
    | inr miss ↦ let (x, found) = find_where-added q ys a e in (x, rw miss found)
  ]

-- The applications and the jobs are these.
abbrev Untouched : List Application → List Job → Db → Type 0
Untouched applications jobs db = (db.applications ≡ applications) × (db.jobs ≡ jobs)

-- And an opportunity with the id is there.
abbrev Opened : List Application → List Job → ℕ → Db → Type 0
Opened applications jobs id db =
    Untouched applications jobs db
    × ((x : Opportunity) × (find_where (λ (o : Opportunity). o.id == id) db.opportunities ≡ some x))

module _ (applications : List Application) (jobs : List Job) where
  untouched : Filed (Untouched applications jobs)
  untouched = record {
    free = record {
      companies = λ rows db h. h;
      persons = λ rows db h. h;
      affiliations = λ rows db h. h;
      founder_scores = λ rows db h. h;
      founder_events = λ rows db h. h;
      snapshots = λ rows db h. h;
      chunks = λ rows db h. h;
      edges = λ rows db h. h;
      channels = λ rows db h. h;
    };
    documents = λ rows db h. h;
    opened = λ o db none_live h. h;
  }

  opened : (id : ℕ) → Indifferent (Opened applications jobs id)
  opened id = record {
    companies = λ rows db h. h;
    persons = λ rows db h. h;
    affiliations = λ rows db h. h;
    founder_scores = λ rows db h. h;
    founder_events = λ rows db h. h;
    snapshots = λ rows db h. h;
    chunks = λ rows db h. h;
    edges = λ rows db h. h;
    channels = λ rows db h. h;
  }

module _ (tools : SubmitTools) (draw : SubmitDraw) where
  opportunity_there :
      (s : Submission) (company : Company) (c c' : Conn Db) (o : Opportunity)
      → submitted_opportunity tools draw s company c ≡ (ok o, c')
      → (x : Opportunity) × (find_where (λ (y : Opportunity). y.id == o.id) c'.working.opportunities
          ≡ some x)
  unfolding submitted_opportunity
  opportunity_there s company c c' o h =
      elim (Option-cases (find_where (live_for s.org_id company.id) c.working.opportunities)) [
        | inl missing ↦
            let new = inbound tools draw s company c.working in
            let e : new ≡ o = ground arith in
            let e' : c'.working.opportunities ≡ c.working.opportunities ++ new ∷ [] =
              ground arith in
            rw (sym e, e')
              (find_where-added (λ (y : Opportunity). y.id == new.id) c.working.opportunities new
                (==_refl new.id))
        | inr (x, found) ↦
            let e : x ≡ o = ground arith in
            let e' : c'.working.opportunities ≡ c.working.opportunities = ground arith in
            rw (sym e, e')
              (find_where-there (live_for s.org_id company.id) (λ (y : Opportunity). y.id == x.id)
                c.working.opportunities x found (==_refl x.id))
      ]

  -- What a submission has made, and what it has put in.
  abbrev pub Filing : Submission → Db → CreatedApplication → Db → Type 0
  Filing s db created db' =
      (o : Opportunity) × (document : Option ℕ) × (created.application
        ≡ application_row tools draw s o.id document)
      × (created.job ≡ application_job tools draw s o.id document)
      × (created.tracking_token ≡ tracking_token tools draw s)
      × (db'.applications ≡ db.applications ++ created.application ∷ [])
      × (db'.jobs ≡ db.jobs ++ created.job ∷ [])
      × (created.opportunity ≡ o)
      × ((x : Opportunity) × (find_where (λ (y : Opportunity). y.id == o.id) db'.opportunities
            ≡ some x))

  file_trace :
      (s : Submission) (db : Db) (o : Opportunity) (document : Option ℕ) (c c' : Conn Db)
      (created : CreatedApplication)
      → Opened db.applications db.jobs o.id c.working
      → file_application tools draw s o document c ≡ (ok created, c')
      → Filing s db created c'.working
  unfolding file_application
  file_trace s db o document c c' created h e =
      let made : record {
        application = application_row tools draw s o.id document;
        opportunity = o;
        job = application_job tools draw s o.id document;
        tracking_token = tracking_token tools draw s;
        replayed = false;
      }
          ≡ created =
        ground arith in
      let state : record (c.working) {
        applications = c.working.applications ++ application_row tools draw s o.id document ∷ [];
        jobs = c.working.jobs ++ application_job tools draw s o.id document ∷ [];
      }
          ≡ c'.working =
        ap (λ (r : Result CreatedApplication × Conn Db). r.1.working) e in
      (
        o,
        document,
        ap (λ (r : CreatedApplication). r.application) (sym made),
        ap (λ (r : CreatedApplication). r.job) (sym made),
        ap (λ (r : CreatedApplication). r.tracking_token) (sym made),
        rw (sym state, sym made, h.0.0) refl,
        rw (sym state, sym made, h.0.1) refl,
        ap (λ (r : CreatedApplication). r.opportunity) (sym made),
        rw (sym state) h.1,
      )

  founder_trace :
      (s : Submission) (db : Db) (company : Company) (document : Option Document) (o : Opportunity)
      (c c' : Conn Db) (created : CreatedApplication)
      → Untouched db.applications db.jobs c.working
      → ((x : Opportunity) × (find_where (λ (y : Opportunity). y.id == o.id) c.working.opportunities
            ≡ some x))
      → submit_founder tools draw s company document o c ≡ (ok created, c')
      → Filing s db created c'.working
  unfolding submit_founder
  founder_trace s db company document o c c' created h there e =
      let O = Opened db.applications db.jobs o.id in
      let founder =
        ensure_application_founder tools.base draw.person_id draw.creation.now company s.contact in
      let (p, c1, e1, f1) =
        bind_returned founder (λ _. file_application tools draw s o (document_id_of document)) c c'
          created e in
      let kept =
        founder-Here tools.base (λ _. Unit {0}) O (opened db.applications db.jobs o.id)
          draw.person_id draw.creation.now company s.contact in
      let h1 : O c1.working =
        subst (λ (r : Result Person × Conn Db). O r.1.working) e1 (kept c (tt, (h, there))).1 in
      file_trace s db o (document_id_of document) c1 c' created h1 f1

  -- What a submission leaves behind.
  pub submit_trace :
      (s : Submission) (db : Db) (c' : Conn Db) (created : CreatedApplication)
      → submit tools draw s (connect db) ≡ (ok created, c')
      → Filing s db created c'.working
  unfolding submit submit_document submit_opportunity submit_founder submitted_document
  submit_trace s db c' created e =
      let U = Untouched db.applications db.jobs in
      let k = untouched db.applications db.jobs in
      let (company, c1, e1, f1) =
        bind_returned (submitted_company tools draw s) (submit_document tools draw s) (connect db)
          c' created e in
      let h1 : Here U c1 =
        subst (λ (r : Result Company × Conn Db). Here U r.1) e1
          (company-Here tools draw U k s (connect db) ((refl, refl), (refl, refl))) in
      let (document, c2, e2, f2) =
        bind_returned (submitted_document tools draw s company.id)
          (submit_opportunity tools draw s company) c1 c' created f1 in
      let h2 : Here U c2 =
        subst (λ (r : Result (Option Document) × Conn Db). Here U r.1) e2
          (stored_deck-Here tools draw U k s company.id s.deck_bytes c1 h1) in
      let (o, c3, e3, f3) =
        bind_returned (submitted_opportunity tools draw s company)
          (submit_founder tools draw s company document) c2 c' created f2 in
      let h3 : Here U c3 =
        subst (λ (r : Result Opportunity × Conn Db). Here U r.1) e3
          (opportunity-Here tools draw U k s company c2 h2) in
      founder_trace s db company document o c3 c' created h3.1
        (opportunity_there s company c2 c3 o e3) f3
