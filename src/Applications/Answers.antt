-- ===== src/Applications/Answers.antt =====
-- What the handlers of backend/app/routers/applications.py answer to a repeated form, and of a public
-- application.
use mathlib.Core.Path.{subst}
use text.Mathlib.TextEquality.{eq_iff}
use dolphin_vc.Applications.Replay.{
  from_result_lem, replayed_run, replay_found, validate_urls_lem, replay_of_key, create_trace,
  receive_trace, valid,
}
use dolphin_vc.Applications.Submit.{
  application_row, replay_of, Submission, SubmitTools, create_application, prior_job,
  CreatedApplication, SubmitDraw,
}
use dolphin_vc.Applications.Handlers.{
  PublicApplicationStatus, tracked_by, public_application_status, public_apply, from_result,
  validate_urls, submission_of, read_deck, receive_deck, submit_application, receive, Form,
  HandlerTools,
}
use dolphin_vc.Base.{
  ◌++◌, ◌*◌, ◌-◌, Bool, str_eq, ℕ, ◌≡◌, ◌∙◌, refl, ap, sym, String, false, true, Option, none, some,
  List, [], ◌∷◌, ◌==◌, find_where, find_where-insert,
}
use dolphin_vc.Errors.{Result, ok}
use dolphin_vc.Session.{pure, ◌>>◌, commit, ◌>>=◌, Conn, connect, request, bind_run}
use dolphin_vc.Records.{Opportunity, Db, Application}
use dolphin_vc.Types.{ApplicationStatus}
use dolphin_vc.Applications.Trace.{submit_trace, Filing}

module _ (tools : HandlerTools) (draw : SubmitDraw) (form : Form) (org : ℕ) where
  keyed_submit :
      (user : ℕ) (key : String) (c : Conn Db)
      → str_eq key "" ≡ false
      → submit_application tools draw form org user (some key) c
        ≡ receive tools draw form org (some user) (some key) false c
  unfolding submit_application
  keyed_submit user key c keyed = rw keyed (rw keyed refl)

  -- A form whose parts all pass is received.
  receive_run :
      (user : Option ℕ) (key : Option String) (is_public : Bool) (bytes : Option (List ℕ)) (db : Db)
      (c : Conn Db) (r : CreatedApplication)
      → valid tools form.contact ≡ ok tt
      → read_deck tools form.deck ≡ ok bytes
      → create_application tools.submit draw
          (submission_of tools form org bytes user key is_public)
          (connect db)
        ≡ (ok r, c)
      → receive tools draw form org user key is_public (connect db) ≡ (ok r, connect c.working)
  unfolding receive receive_deck
  receive_run user key is_public bytes db c r fine read made =
      bind_run (validate_urls tools form.contact)
        (λ _. receive_deck tools draw form org user key is_public) (connect db) (connect db) tt
        (validate_urls_lem tools form.contact (connect db) ∙ ap (λ v. (v, connect db)) fine)
      ∙ bind_run (from_result (read_deck tools form.deck))
          (λ b.
            create_application tools.submit draw (submission_of tools form org b user key is_public)
            >>= λ created. commit >> pure created)
          (connect db) (connect db) bytes
          (from_result_lem (read_deck tools form.deck) (connect db)
            ∙ ap (λ v. (v, connect db)) read)
      ∙ bind_run
          (create_application tools.submit draw
            (submission_of tools form org bytes user key is_public))
          (λ created. commit >> pure created) (connect db) c r made

-- A form is filed once under its key: if no job of the organisation has the key and the id that the
-- application draws is new, then the same form, submitted again by any user of the organisation under
-- the key of a submission that succeeded, as the next request, succeeds as a replay, answers with the
-- same application and job, and changes nothing.
pub submit_once :
    (tools : HandlerTools) (draw draw' : SubmitDraw) (form : Form) (org user user' : ℕ)
    (key : String) (db db' : Db) (created : CreatedApplication)
    → str_eq key "" ≡ false
    → find_where (prior_job org key) db.jobs ≡ none
    → find_where (λ (a : Application). a.id == draw.application_id) db.applications ≡ none
    → request (submit_application tools draw form org user (some key)) db ≡ (ok created, db')
    → (r : CreatedApplication) × (request
          (submit_application tools draw' form org user' (some key))
          db'
        ≡ (ok r, db'))
      × (r.application ≡ created.application)
      × (r.job ≡ created.job)
      × (r.replayed ≡ true)
submit_once tools draw draw' form org user user' key db db' created keyed no_job fresh_id e =
    let run = submit_application tools draw form org user (some key) (connect db) in
    let returned : run ≡ (ok created, run.1) =
      ap (λ (r : Result CreatedApplication × Db). (r.0, run.1)) e in
    let (bytes, c, fine, read, made, closed) =
      receive_trace tools draw form org (some user) (some key) false db run.1 created
        (sym (keyed_submit tools draw form org user key (connect db) keyed) ∙ returned) in
    let first = submission_of tools form org bytes (some user) (some key) false in
    let again = submission_of tools form org bytes (some user') (some key) false in
    let (named, given, filed) =
      create_trace tools.submit draw first db c created made
        (replay_of_key org key db keyed ∙ rw no_job refl) in
    let (r, replay, same_application, same_job, marked) =
      replay_found tools.submit draw first db c.working created key keyed refl no_job fresh_id
        (submit_trace tools.submit draw first db c created filed) in
    let stored : c.working ≡ db' =
      ap (λ (x : Conn Db). x.committed) closed
      ∙ ap (λ (x : Result CreatedApplication × Db). x.1) e in
    let answered =
      keyed_submit tools draw' form org user' key (connect c.working) keyed
      ∙ receive_run tools draw' form org (some user') (some key) false bytes c.working
          (connect c.working) r fine read
          (replayed_run tools.submit draw' again c.working r named given replay) in
    (
      r,
      subst
          (λ (d : Db).
            request (submit_application tools draw' form org user' (some key)) d ≡ (ok r, d))
          stored (ap (λ (x : Result CreatedApplication × Conn Db). (x.0, x.1.committed)) answered),
      same_application,
      same_job,
      marked,
    )

tracked_row :
    (tools : SubmitTools) (draw : SubmitDraw) (s : Submission) (o : ℕ) (document : Option ℕ)
    → s.is_public ≡ true
    → tracked_by (tools.hash_text draw.token) (application_row tools draw s o document) ≡ true
tracked_row tools draw s o document public =
    rw public ((eq_iff (tools.hash_text draw.token) (tools.hash_text draw.token)).1 refl)

-- What the status tells of an application that was just received.
abbrev pub just_received :
    (tools : SubmitTools) → (draw : SubmitDraw) → ℕ → Opportunity → PublicApplicationStatus
just_received tools draw now o = record {
  status = ApplicationStatus.received;
  stage = some o.stage;
  submitted_at = draw.creation.now;
  decided_at = o.decided_at;
  hours_remaining = tools.base.round ((o.sla_deadline_at - now) * 100) 3600;
}

tracked_status :
    (tools : SubmitTools) (draw : SubmitDraw) (s : Submission) (now : ℕ) (db db' : Db)
    (created : CreatedApplication)
    → s.is_public ≡ true
    → find_where (tracked_by (tools.hash_text draw.token)) db.applications ≡ none
    → Filing tools draw s db created db'
    → (o : Opportunity) × (created.application.opportunity_id ≡ some created.opportunity.id)
      × (find_where (λ (x : Opportunity). x.id == created.opportunity.id) db'.opportunities
          ≡ some o)
      × (created.tracking_token ≡ some draw.token)
      × (request (public_application_status tools now draw.token) db'
          ≡ (ok (just_received tools draw now o), db'))
unfolding public_application_status
tracked_status tools draw s now db db' created public fresh
      (o, document, ea, ej, et, apps, jobs, eo, shown) =
    let (x, there) = shown in
    let row = application_row tools draw s o.id document in
    let mine = tracked_by (tools.hash_text draw.token) in
    let found : find_where mine db'.applications ≡ some row =
      ap (find_where mine) (apps ∙ ap (λ a. db.applications ++ a ∷ []) ea)
      ∙ find_where-insert mine mine db.applications row (λ y h. h) fresh
          (tracked_row tools draw s o.id document public) in
    (
      x,
      rw (ea, eo) refl,
      ap (λ (y : Opportunity). find_where (λ (z : Opportunity). z.id == y.id) db'.opportunities) eo
          ∙ there,
      et ∙ rw public refl,
      rw (found, there) refl,
    )

-- The token that a public application answers with leads back to it: if no application has the hash
-- of the token that is drawn, then asking for the status with it, as the next request, gives an
-- application that was received when the form was, with the stage, the decision time and the hours
-- to the deadline of the opportunity that the application is filed under, as it stands in the
-- database, and changes nothing.
pub public_application_status-public_apply :
    (tools : HandlerTools) (draw : SubmitDraw) (form : Form) (org now : ℕ) (db db' : Db)
    (created : CreatedApplication)
    → find_where (tracked_by (tools.submit.hash_text draw.token)) db.applications ≡ none
    → request (public_apply tools draw form (some org)) db ≡ (ok created, db')
    → (token : String) × (o : Opportunity) × (created.application.opportunity_id
        ≡ some created.opportunity.id)
      × (find_where (λ (x : Opportunity). x.id == created.opportunity.id) db'.opportunities
          ≡ some o)
      × (created.tracking_token ≡ some token)
      × (request (public_application_status tools.submit now token) db'
          ≡ (ok (just_received tools.submit draw now o), db'))
unfolding public_apply replay_of
public_application_status-public_apply tools draw form org now db db' created fresh e =
    let run = receive tools draw form org none none true (connect db) in
    let returned : run ≡ (ok created, run.1) =
      ap (λ (r : Result CreatedApplication × Db). (r.0, run.1)) e in
    let (bytes, c, fine, read, made, closed) =
      receive_trace tools draw form org none none true db run.1 created returned in
    let s = submission_of tools form org bytes none none true in
    let (named, given, filed) = create_trace tools.submit draw s db c created made refl in
    let stored : c.working ≡ db' =
      ap (λ (y : Conn Db). y.committed) closed
      ∙ ap (λ (y : Result CreatedApplication × Db). y.1) e in
    let (o, filed_under, there, token, answer) =
      tracked_status tools.submit draw s now db c.working created refl fresh
        (submit_trace tools.submit draw s db c created filed) in
    (
      draw.token,
      o,
      filed_under,
      subst
          (λ (d : Db).
            find_where (λ (x : Opportunity). x.id == created.opportunity.id) d.opportunities
            ≡ some o)
          stored there,
      token,
      subst
          (λ (d : Db).
            request (public_application_status tools.submit now draw.token) d
            ≡ (ok (just_received tools.submit draw now o), d))
          stored answer,
    )
