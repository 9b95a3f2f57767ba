-- ===== src/Applications/Handlers.antt =====
-- The handlers of backend/app/routers/applications.py that write, and the status of a public
-- application. The check of a URL (it asks the DNS) is a parameter, as are the organisation that a
-- slug names and the dispatch of the job, which runs in a worker.
use dolphin_vc.Base.{
  ℕ, ◌-◌, ◌*◌, String, Bool, true, false, ◌&&◌, Option, none, some, List, [], ◌∷◌, ◌==◌,
  if◌then◌else◌, str_eq, find_where, update_where,
}
use dolphin_vc.Base.Text.{take}
use dolphin_vc.Types.{ApplicationStatus, OpportunityStage}
use dolphin_vc.Errors.{AppError, ErrorCode, Result, ok, err, app_error, not_found_error}
use dolphin_vc.Session.{Tx, pure, raise, query, modify, commit, or_raise, raise_if, ◌>>=◌, ◌>>◌}
use dolphin_vc.Records.{Db, Application, Opportunity, set_applications}
use dolphin_vc.Sourcing.Names.{text_or}
use dolphin_vc.Sourcing.Applicants.{Contact}
use dolphin_vc.Applications.Upload.{read_limited_upload}
use dolphin_vc.Applications.Submit.{
  SubmitTools, SubmitDraw, Submission, CreatedApplication, create_application, is_blank,
}

-- What the handlers ask of the rest of the program.
pub record HandlerTools : Type 0 where
  pub submit : SubmitTools
  pub validate_public_url : String → Result (Unit {0})
  pub show : ℕ → String
  pub max_upload_mb : ℕ

-- The form of an application; `deck` is the name and the chunks of the file.
pub record Form : Type 0 where
  pub company_name : String
  pub deck : Option (Option String × List (List ℕ))
  pub contact : Contact
  pub notes : Option String
  pub client_host : Option String

abbrev pub from_result : {A : Type 0} → Result A → Tx Db A
from_result (ok a) = pure a
from_result (err e) = raise e

abbrev name_of_deck : Option (Option String × List (List ℕ)) → Option String
name_of_deck none = none
name_of_deck (some (name, chunks)) = name

abbrev some_bytes : Result (List ℕ) → Result (Option (List ℕ))
some_bytes (ok bytes) = ok (some bytes)
some_bytes (err e) = err e

module _ (tools : HandlerTools) where
  abbrev pub validate_each : List String → Tx Db (Unit {0})
  validate_each [] = pure tt
  validate_each (url ∷ urls) = do from_result (tools.validate_public_url url); validate_each urls

  -- `_validate_urls`
  unfoldable pub validate_urls : Contact → Tx Db (Unit {0})
  unfolding take
  validate_urls contact = do
    if is_blank contact.website
        then pure tt
        else from_result (tools.validate_public_url (text_or contact.website ""))
    validate_each (take 10 contact.artifacts)

  abbrev pub read_deck : Option (Option String × List (List ℕ)) → Result (Option (List ℕ))
  read_deck none = ok none
  read_deck (some (name, chunks)) =
      some_bytes (read_limited_upload tools.show tools.max_upload_mb chunks)

  abbrev pub submission_of :
      Form → ℕ → Option (List ℕ) → Option ℕ → Option String → Bool → Submission
  submission_of form org bytes user key is_public = record {
    org_id = org;
    company_name = form.company_name;
    deck_bytes = bytes;
    original_filename = name_of_deck form.deck;
    contact = form.contact;
    notes = form.notes;
    source_channel = if is_public then "public_form" else "web_form";
    submitted_ip = form.client_host;
    uploaded_by = user;
    idempotency_key = key;
    is_public = is_public;
  }

  -- The deck of a form and what follows, up to the commit.
  unfoldable pub receive_deck :
      SubmitDraw → Form → ℕ → Option ℕ → Option String → Bool → Tx Db CreatedApplication
  unfolding read_limited_upload create_application
  receive_deck draw form org user key is_public = do
    bytes ← from_result (read_deck form.deck)
    created ← create_application tools.submit draw (submission_of form org bytes user key is_public)
    commit
    pure created

  -- What both handlers do with a form.
  unfoldable pub receive :
      SubmitDraw → Form → ℕ → Option ℕ → Option String → Bool → Tx Db CreatedApplication
  unfolding validate_urls receive_deck
  receive draw form org user key is_public = do
    validate_urls form.contact
    receive_deck draw form org user key is_public

  abbrev pub application_key_required : AppError
  application_key_required =
      app_error ErrorCode.validation_error "Idempotency-Key header is required." 400

  -- `submit_application`, up to the dispatch of the job, which follows where nothing was replayed
  unfoldable pub submit_application :
      SubmitDraw → Form → ℕ → ℕ → Option String → Tx Db CreatedApplication
  unfolding receive
  submit_application draw form org user key = do
    raise_if (is_blank key) application_key_required
    receive draw form org (some user) key false

  -- `public_apply`, with the organisation of the slug
  unfoldable pub public_apply : SubmitDraw → Form → Option ℕ → Tx Db CreatedApplication
  unfolding receive
  public_apply draw form org = do
    id ← or_raise org (not_found_error "Fund was not found.")
    receive draw form id none none true

-- What `public_application_status` answers; the hours are in hundredths.
pub record PublicApplicationStatus : Type 0 where
  pub status : ApplicationStatus
  pub stage : Option OpportunityStage
  pub submitted_at : ℕ
  pub decided_at : Option ℕ
  pub hours_remaining : ℕ

abbrev opportunity_of : Option ℕ → Db → Option Opportunity
opportunity_of none db = none
opportunity_of (some id) db = find_where (λ (o : Opportunity). o.id == id) db.opportunities

-- The status of an application, with its opportunity where it has one.
abbrev status_of : (ℕ → ℕ → ℕ) → ℕ → Application → Option Opportunity → PublicApplicationStatus
status_of round now a none = record {
  status = a.status;
  stage = none;
  submitted_at = a.received_at;
  decided_at = none;
  hours_remaining = round ((a.received_at - now) * 100) 3600;
}
status_of round now a (some o) = record {
  status = a.status;
  stage = some o.stage;
  submitted_at = a.received_at;
  decided_at = o.decided_at;
  hours_remaining = round ((o.sla_deadline_at - now) * 100) 3600;
}

abbrev hash_is : Option String → String → Bool
hash_is none hash = false
hash_is (some h) hash = str_eq h hash

abbrev pub tracked_by : String → Application → Bool
tracked_by hash a = hash_is a.tracking_token_hash hash

-- `public_application_status`
unfoldable pub public_application_status : SubmitTools → ℕ → String → Tx Db PublicApplicationStatus
public_application_status tools now token = do
  found ← query (λ db. find_where (tracked_by (tools.hash_text token)) db.applications)
  a ← or_raise found (not_found_error "Application was not found.")
  o ← query (opportunity_of a.opportunity_id)
  pure (status_of tools.base.round now a o)

abbrev owned_application : ℕ → ℕ → Application → Bool
owned_application org id a = a.id == id && a.org_id == org

-- `request_application_info`
unfoldable request_application_info : ℕ → ℕ → Tx Db (Unit {0})
request_application_info org id = do
  found ← query (λ db. find_where (owned_application org id) db.applications)
  a ← or_raise found (not_found_error "Application was not found.")
  modify (
      set_applications (
        update_where (λ (x : Application). x.id == a.id)
          (λ (x : Application). record x { status = ApplicationStatus.needs_info })))
  commit
