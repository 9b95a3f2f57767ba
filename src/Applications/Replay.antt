-- ===== src/Applications/Replay.antt =====
-- A form that is submitted twice, and the status of a public application
-- (backend/app/routers/applications.py).
use text.Mathlib.TextEquality.{eq_iff}
use dolphin_vc.Sourcing.Names.{text_or}
use dolphin_vc.Base.Text.{strip, take}
use dolphin_vc.Sourcing.Applicants.{Contact}
use dolphin_vc.Applications.Submit.{
  replay_of_job, application_job, application_row, submit, prior_job, replay_of, SubmitTools,
  Submission, create_application, CreatedApplication, is_blank, SubmitDraw,
}
use dolphin_vc.Applications.Handlers.{
  from_result, submission_of, read_deck, receive_deck, receive, Form, validate_urls, validate_each,
  HandlerTools,
}
use dolphin_vc.Base.{
  ◌&&◌, str_eq, is_none, Bool-cases, if◌then◌else◌, ℕ, ◌≡◌, ◌∙◌, refl, ap, sym, inl, inr, arith,
  String, Bool, true, false, Option, none, some, List, [], ◌∷◌, ◌==◌, find_where, find_where-insert,
  ==_refl,
}
use dolphin_vc.Errors.{Result, ok, err}
use dolphin_vc.Session.{Conn, Tx, connect, resume, bind_returned, pure, commit, ◌>>=◌, ◌>>◌}
use dolphin_vc.Records.{Db, Application}
use dolphin_vc.Applications.Trace.{Filing}

abbrev then_valid : Result (Unit {0}) → Result (Unit {0}) → Result (Unit {0})
then_valid (ok _) r = r
then_valid (err e) r = err e

resume_valid :
    (r v : Result (Unit {0})) (k : Tx Db (Unit {0})) (c : Conn Db)
    → k c ≡ (v, c)
    → resume (λ _. k) (r, c) ≡ (then_valid r v, c)
resume_valid (ok u) v k c h = h
resume_valid (err e) v k c h = refl

-- Two parts that touch nothing, one behind the other.
bind_valid :
    (m k : Tx Db (Unit {0})) (r v : Result (Unit {0})) (c : Conn Db)
    → m c ≡ (r, c)
    → k c ≡ (v, c)
    → (m >> k) c ≡ (then_valid r v, c)
bind_valid m k r v c h h' = ap (resume (λ _. k)) h ∙ resume_valid r v k c h'

pub from_result_lem : {A : Type 0} (r : Result A) (c : Conn Db) → from_result r c ≡ (r, c)
from_result_lem (ok a) c = refl
from_result_lem (err e) c = refl

if_valid :
    (b : Bool) (r : Result (Unit {0})) (c : Conn Db)
    → (if b then pure tt else from_result r) c ≡ (if b then ok tt else r, c)
if_valid true r c = refl
if_valid false r c = from_result_lem r c

module _ (tools : HandlerTools) where
  abbrev valid_each : List String → Result (Unit {0})
  valid_each [] = ok tt
  valid_each (url ∷ urls) = then_valid (tools.validate_public_url url) (valid_each urls)

  -- The check of the URLs touches nothing, and does not depend on the database.
  validate_each_lem :
      (urls : List String) (c : Conn Db) → validate_each tools urls c ≡ (valid_each urls, c)
  validate_each_lem [] c = refl
  validate_each_lem (url ∷ urls) c =
      bind_valid (from_result (tools.validate_public_url url)) (validate_each tools urls)
        (tools.validate_public_url url) (valid_each urls) c
        (from_result_lem (tools.validate_public_url url) c) (validate_each_lem urls c)

  abbrev valid_website : Option String → Result (Unit {0})
  valid_website website =
      if is_blank website then ok tt else tools.validate_public_url (text_or website "")

  abbrev pub valid : Contact → Result (Unit {0})
  valid contact =
      then_valid (valid_website contact.website) (valid_each (take 10 contact.artifacts))

  pub validate_urls_lem :
      (contact : Contact) (c : Conn Db) → validate_urls tools contact c ≡ (valid contact, c)
  unfolding validate_urls
  validate_urls_lem contact c =
      let r = tools.validate_public_url (text_or contact.website "") in
      bind_valid (if is_blank contact.website then pure tt else from_result r)
        (validate_each tools (take 10 contact.artifacts)) (valid_website contact.website)
        (valid_each (take 10 contact.artifacts)) c (if_valid (is_blank contact.website) r c)
        (validate_each_lem (take 10 contact.artifacts) c)

  module _ (draw : SubmitDraw) (form : Form) (org : ℕ) (user : Option ℕ) (key : Option String)
      (is_public : Bool) where
    -- What a form that was received has passed.
    pub receive_trace :
        (db : Db) (c' : Conn Db) (created : CreatedApplication)
        → receive tools draw form org user key is_public (connect db) ≡ (ok created, c')
        → (bytes : Option (List ℕ)) × (c : Conn Db) × (valid form.contact ≡ ok tt)
          × (read_deck tools form.deck ≡ ok bytes)
          × (create_application tools.submit draw
                (submission_of tools form org bytes user key is_public)
                (connect db)
              ≡ (ok created, c))
          × (connect c.working ≡ c')
    unfolding receive receive_deck
    receive_trace db c' created e =
        let (u, c1, e1, f1) =
          bind_returned (validate_urls tools form.contact)
            (λ _. receive_deck tools draw form org user key is_public) (connect db) c' created e in
        let same = sym (validate_urls_lem form.contact (connect db)) ∙ e1 in
        let start : connect db ≡ c1 = ap (λ (r : Result (Unit {0}) × Conn Db). r.1) same in
        let (bytes, c2, e2, f2) =
          bind_returned (from_result (read_deck tools form.deck))
            (λ bytes.
              create_application tools.submit draw
                (submission_of tools form org bytes user key is_public)
              >>= λ created. commit >> pure created)
            c1 c' created f1 in
        let (made, c3, e3, f3) =
          bind_returned
            (create_application tools.submit draw
              (submission_of tools form org bytes user key is_public))
            (λ created. commit >> pure created) c2 c' created f2 in
        let read = sym (from_result_lem (read_deck tools form.deck) c1) ∙ e2 in
        let start2 : connect db ≡ c2 =
          start ∙ ap (λ (r : Result (Option (List ℕ)) × Conn Db). r.1) read in
        (
          bytes,
          c3,
          ap (λ (r : Result (Unit {0}) × Conn Db). r.0) same,
          ap (λ (r : Result (Option (List ℕ)) × Conn Db). r.0) read,
          ap
                (create_application tools.submit draw
                  (submission_of tools form org bytes user key is_public))
                start2
              ∙ e3
              ∙ ap (λ (r : Result CreatedApplication × Conn Db). (r.0, c3)) f3,
          ap (λ (r : Result CreatedApplication × Conn Db). r.1) f3,
        )

abbrev misses_name : Submission → Bool
misses_name s = str_eq (strip s.company_name) ""

abbrev misses_deck : Submission → Bool
misses_deck s = is_none s.deck_bytes && is_blank s.contact.website

pub replay_of_key :
    (org : ℕ) (key : String) (db : Db)
    → str_eq key "" ≡ false
    → replay_of org (some key) db ≡ replay_of_job (find_where (prior_job org key) db.jobs) db
unfolding replay_of
replay_of_key org key db keyed = rw keyed (rw keyed refl)

module _ (tools : SubmitTools) (draw : SubmitDraw) (s : Submission) where
  -- A submission that returns, and is not replayed, has passed the checks.
  pub create_trace :
      (db : Db) (c : Conn Db) (created : CreatedApplication)
      → create_application tools draw s (connect db) ≡ (ok created, c)
      → replay_of s.org_id s.idempotency_key db ≡ none
      → (misses_name s ≡ false)
        × (misses_deck s ≡ false)
        × (submit tools draw s (connect db) ≡ (ok created, c))
  unfolding create_application
  create_trace db c created e fresh = elim (Bool-cases (misses_name s)) [
    | inl missing ↦ absurd (ground arith)
    | inr named ↦ elim (Bool-cases (misses_deck s)) [
      | inl missing ↦ absurd (ground arith)
      | inr given ↦ (named, given, ground arith)
    ]
  ]

  -- A submission that passes the checks and is replayed returns what was there.
  pub replayed_run :
      (db : Db) (created : CreatedApplication)
      → misses_name s ≡ false
      → misses_deck s ≡ false
      → replay_of s.org_id s.idempotency_key db ≡ some created
      → create_application tools draw s (connect db) ≡ (ok created, connect db)
  unfolding create_application
  replayed_run db created named given there = rw (named, given, there) refl

  -- What a submission has made is what its key finds.
  pub replay_found :
      (db db' : Db) (created : CreatedApplication) (key : String)
      → str_eq key "" ≡ false
      → s.idempotency_key ≡ some key
      → find_where (prior_job s.org_id key) db.jobs ≡ none
      → find_where (λ (a : Application). a.id == draw.application_id) db.applications ≡ none
      → Filing tools draw s db created db'
      → (r : CreatedApplication) × (replay_of s.org_id s.idempotency_key db' ≡ some r)
        × (r.application ≡ created.application)
        × (r.job ≡ created.job)
        × (r.replayed ≡ true)
  unfolding replay_of
  replay_found db db' created key keyed has_key no_job fresh_id filing =
      let (o, document, ea, ej, et, apps, jobs, eo, shown) = filing in
      let (x, there) = shown in
      let row = application_row tools draw s o.id document in
      let job = application_job tools draw s o.id document in
      let found_job : find_where (prior_job s.org_id key) db'.jobs ≡ some job =
        rw (jobs, ej)
          (find_where-insert (prior_job s.org_id key) (prior_job s.org_id key) db.jobs job
            (λ y h. h) no_job (rw (has_key, ==_refl s.org_id, (eq_iff key key).1 refl) refl)) in
      let found_app : find_where (λ (a : Application). a.id == draw.application_id) db'.applications
          ≡ some row =
        rw (apps, ea)
          (find_where-insert (λ (a : Application). a.id == draw.application_id)
            (λ (a : Application). a.id == draw.application_id) db.applications row (λ y h. h)
            fresh_id (==_refl draw.application_id)) in
      (
        record {
          application = row;
          opportunity = x;
          job = job;
          tracking_token = none;
          replayed = true;
        },
        ap (λ k. replay_of s.org_id k db') has_key
            ∙ replay_of_key s.org_id key db' keyed
            ∙ rw (found_job, found_app, there) refl,
        sym ea,
        sym ej,
        refl,
      )
