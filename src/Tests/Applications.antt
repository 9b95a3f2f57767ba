-- ===== src/Tests/Applications.antt =====
-- A founder's form, submitted by a user and by the public.
use dolphin_vc.Types.{OpportunityOrigin}
use dolphin_vc.Opportunities.Creation.{new_opportunity}
use dolphin_vc.Applications.Upload.{upload_exceeded, read_limited_upload}
use dolphin_vc.Applications.Submit.{
  application_job, submitted_stub, application_row, SubmitTools, SubmitDraw, Submission,
  CreatedApplication,
}
use dolphin_vc.Applications.Handlers.{
  submission_of, public_application_status, submit_application, public_apply, HandlerTools, Form,
}
use dolphin_vc.Base.{
  ◌++◌, ◌+◌, ◌==◌, ℕ, ◌*◌, ◌≡◌, refl, String, Bool, true, false, none, some, List, [], ◌∷◌,
  if◌then◌else◌, length, leb, find_where,
}
use dolphin_vc.Errors.{ok, err}
use dolphin_vc.Session.{request}
use dolphin_vc.Records.{Opportunity, Db, empty_db}
use dolphin_vc.Tests.Sourcing.{kit, opening_at, empty-Consistent}
use dolphin_vc.Sourcing.Invariants.{Consistent}
use dolphin_vc.Applications.Limits.{read_limited_upload_lem, payload}
use dolphin_vc.Applications.Arrival.{application-Consistent}
use dolphin_vc.Applications.Answers.{
  just_received, submit_once, public_application_status-public_apply,
}

abbrev show_number : ℕ → String
show_number n = if n == 1 then "1" else "many"

abbrev submit_kit : SubmitTools
submit_kit = record {
  base = kit;
  sha256 = λ bytes. if length bytes == 0 then "none" else "digest";
  hash_text = λ token. token;
  path_name = λ path. path;
}

abbrev handler_kit : HandlerTools
handler_kit = record {
  submit = submit_kit;
  validate_public_url = λ url. ok tt;
  show = show_number;
  max_upload_mb = 1;
}

abbrev draw : ℕ → SubmitDraw
draw n = record {
  creation = opening_at n;
  person_id = 500 + n;
  document_id = 600 + n;
  object_id = "0a";
  application_id = 700 + n;
  job_id = 800 + n;
  token = "t0";
}

abbrev pdf_chunk : List ℕ
pdf_chunk = 37 ∷ 80 ∷ 68 ∷ 70 ∷ 45 ∷ 49 ∷ []

abbrev form : Form
form = record {
  company_name = " Acme ";
  deck = some (some "deck.pdf", pdf_chunk ∷ (50 ∷ []) ∷ [] ∷ []);
  contact = record {
    contact_name = some "Ada";
    contact_email = some "ada@acme.dev";
    website = some "https://acme.dev/x";
    artifacts = "https://acme.dev/demo" ∷ [];
  };
  notes = none;
  client_host = none;
}

read_limited_upload_example :
    read_limited_upload show_number 1 (pdf_chunk ∷ (50 ∷ []) ∷ [] ∷ []) ≡ (
      if leb (length (payload (pdf_chunk ∷ (50 ∷ []) ∷ [] ∷ []))) (1 * 1024 * 1024)
      then ok (payload (pdf_chunk ∷ (50 ∷ []) ∷ [] ∷ []))
      else err (upload_exceeded show_number 1))
read_limited_upload_example =
    read_limited_upload_lem show_number 1 (pdf_chunk ∷ (50 ∷ []) ∷ [] ∷ [])

application-Consistent_example :
    Consistent (request (submit_application handler_kit (draw 0) form 7 1 (some "k")) empty_db).1
    × Consistent (request (public_apply handler_kit (draw 0) form (some 7)) empty_db).1
application-Consistent_example =
    application-Consistent handler_kit (draw 0) form 7 1 (some "k") (some 7) empty_db
      empty-Consistent

abbrev filed : Bool → Submission
filed is_public =
    submission_of handler_kit form 7 (some (pdf_chunk ++ 50 ∷ []))
      (if is_public then none else some 1) (if is_public then none else some "k") is_public

-- What the form makes in an empty database.
abbrev created : Bool → CreatedApplication
created is_public = record {
  application = application_row submit_kit (draw 0) (filed is_public) 200 (some 600);
  opportunity =
      new_opportunity (opening_at 0) 7 (submitted_stub submit_kit (draw 0) (filed is_public))
        OpportunityOrigin.inbound none 1000;
  job = application_job submit_kit (draw 0) (filed is_public) 200 (some 600);
  tracking_token = if is_public then some "t0" else none;
  replayed = false;
}

abbrev first_db : Db
first_db = (request (submit_application handler_kit (draw 0) form 7 1 (some "k")) empty_db).1

first_made :
    request (submit_application handler_kit (draw 0) form 7 1 (some "k")) empty_db
    ≡ (ok (created false), first_db)
unfolding submit_application find_where
first_made = refl

submit_once_example :
    (r : CreatedApplication) × (request
        (submit_application handler_kit (draw 9) form 7 2 (some "k"))
        first_db
      ≡ (ok r, first_db))
    × (r.application ≡ (created false).application)
    × (r.job ≡ (created false).job)
    × (r.replayed ≡ true)
unfolding find_where
submit_once_example =
    submit_once handler_kit (draw 0) (draw 9) form 7 1 2 "k" empty_db first_db (created false) refl
      refl refl first_made

abbrev public_db : Db
public_db = (request (public_apply handler_kit (draw 0) form (some 7)) empty_db).1

public_made :
    request (public_apply handler_kit (draw 0) form (some 7)) empty_db
    ≡ (ok (created true), public_db)
unfolding public_apply find_where
public_made = refl

public_application_status-public_apply_example :
    (token : String) × (o : Opportunity) × ((created true).application.opportunity_id
      ≡ some (created true).opportunity.id)
    × (find_where
          (λ (x : Opportunity). x.id == (created true).opportunity.id)
          public_db.opportunities
        ≡ some o)
    × ((created true).tracking_token ≡ some token)
    × (request (public_application_status submit_kit 2000 token) public_db
        ≡ (ok (just_received submit_kit (draw 0) 2000 o), public_db))
unfolding find_where
public_application_status-public_apply_example =
    public_application_status-public_apply handler_kit (draw 0) form 7 2000 empty_db public_db
      (created true) refl public_made
