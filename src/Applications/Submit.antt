-- ===== src/Applications/Submit.antt =====
-- `create_application` of backend/app/services/applications.py. SHA-256, the host of a URL and the
-- last part of a path are parameters; the object store keeps what it is given.
use dolphin_vc.Base.{
  ℕ, String, Bool, true, false, ◌&&◌, Option, none, some, List, [], ◌∷◌, ◌++◌, ◌==◌, if◌then◌else◌,
  str_eq, is_none, opt_is, find_where, length,
}
use Prim.Native.String.{◌++◌ as append}
use dolphin_vc.Base.Text.{strip, first_chars}
use dolphin_vc.Types.{ApplicationStatus, JobStatus, OpportunityOrigin}
use dolphin_vc.Errors.{AppError, ErrorCode, Result, ok, err, app_error}
use dolphin_vc.Session.{Tx, pure, raise, query, modify, raise_if, ◌>>=◌, ◌>>◌}
use dolphin_vc.Records.{
  Db, Application, Company, Document, Job, Opportunity, Thesis, set_applications, set_companies,
  set_documents, set_jobs,
}
use dolphin_vc.Opportunities.Commands.{live_for}
use dolphin_vc.Opportunities.Creation.{CreationDraw, stub_company, new_opportunity, add_opportunity}
use dolphin_vc.Sourcing.Names.{Tools, text_or}
use dolphin_vc.Sourcing.People.{link_of}
use dolphin_vc.Sourcing.Applicants.{Contact, folded, ensure_application_founder}
use dolphin_vc.Applications.Upload.{sniff_document_mime}

pub record SubmitTools : Type 0 where
  pub base : Tools
  pub sha256 : List ℕ → String
  pub hash_text : String → String
  pub path_name : String → String

-- The ids and the token that a submission draws, and the clock.
pub record SubmitDraw : Type 0 where
  pub creation : CreationDraw
  pub person_id : ℕ
  pub document_id : ℕ
  pub object_id : String
  pub application_id : ℕ
  pub job_id : ℕ
  pub token : String

pub record Submission : Type 0 where
  pub org_id : ℕ
  pub company_name : String
  pub deck_bytes : Option (List ℕ)
  pub original_filename : Option String
  pub contact : Contact
  pub notes : Option String
  pub source_channel : String
  pub submitted_ip : Option String
  pub uploaded_by : Option ℕ
  pub idempotency_key : Option String
  pub is_public : Bool

pub record CreatedApplication : Type 0 where
  pub application : Application
  pub opportunity : Opportunity
  pub job : Job
  pub tracking_token : Option String
  pub replayed : Bool

abbrev pub name_required : AppError
name_required = app_error ErrorCode.validation_error "Company name is required." 400

abbrev pub deck_required : AppError
deck_required =
    app_error ErrorCode.validation_error "Deck file is required when no website is provided." 400

abbrev pub is_blank : Option String → Bool
is_blank s = str_eq (text_or s "") ""

abbrev same_key : Option String → String → Bool
same_key none key = false
same_key (some k) key = str_eq k key

-- The query for the job of an earlier submission with the key.
abbrev pub prior_job : ℕ → String → Job → Bool
prior_job org key j =
    opt_is j.org_id org && (str_eq j.kind "application.process" && same_key j.idempotency_key key)

abbrev get_application : Option ℕ → Db → Option Application
get_application none db = none
get_application (some id) db = find_where (λ (a : Application). a.id == id) db.applications

abbrev job_opportunity : Option ℕ → Db → Option Opportunity
job_opportunity none db = none
job_opportunity (some id) db = find_where (λ (o : Opportunity). o.id == id) db.opportunities

abbrev both : Job → Option Application → Option Opportunity → Option CreatedApplication
both j (some a) (some o) =
    some
      (record { application = a; opportunity = o; job = j; tracking_token = none; replayed = true })
both j _ _ = none

abbrev pub replay_of_job : Option Job → Db → Option CreatedApplication
replay_of_job none db = none
replay_of_job (some j) db =
    both j (get_application j.input.application_id db) (job_opportunity j.input.opportunity_id db)

-- What an earlier submission with the key has made, where it is there.
unfoldable pub replay_of : ℕ → Option String → Db → Option CreatedApplication
replay_of org key db =
    if is_blank key
    then none
    else replay_of_job (find_where (prior_job org (text_or key "")) db.jobs) db

abbrev company_by_domain : Option String → Db → Option Company
company_by_domain none db = none
company_by_domain (some domain) db =
    find_where (λ (c : Company). same_key c.domain domain) db.companies

abbrev or_by_name : Option Company → String → Db → Option Company
or_by_name (some c) normalized db = some c
or_by_name none normalized db =
    find_where (λ (c : Company). str_eq c.normalized_name normalized) db.companies

abbrev default_thesis : ℕ → Thesis → Bool
default_thesis org t = t.org_id == org && (t.is_default && is_none t.deleted_at)

abbrev thesis_id_of : Option Thesis → Option ℕ
thesis_id_of none = none
thesis_id_of (some t) = some t.id

abbrev pub document_id_of : Option Document → Option ℕ
document_id_of none = none
document_id_of (some d) = some d.id

abbrev pub company_or : Option Company → Company → Tx Db Company
company_or (some c) new = pure c
company_or none new = do modify (set_companies (λ cs. cs ++ new ∷ [])); pure new

module _ (tools : SubmitTools) (draw : SubmitDraw) where
  abbrev domain_of : Option String → Option String
  domain_of website =
      if is_blank website
      then none
      else folded tools.base (tools.base.hostname (text_or website ""))

  -- The queries by the domain and by the name.
  abbrev pub company_named : Submission → Db → Option Company
  company_named s db =
      or_by_name (company_by_domain (domain_of s.contact.website) db)
        (tools.base.normalize_name s.company_name) db

  abbrev pub submitted_stub : Submission → Company
  submitted_stub s =
      record (stub_company draw.creation.company_id (strip s.company_name)
        (tools.base.normalize_name s.company_name)) {
          domain = domain_of s.contact.website;
          links = link_of "website" s.contact.website;
        }

  -- The company of a submission; a stub where there is none.
  unfoldable pub submitted_company : Submission → Tx Db Company
  unfolding strip
  submitted_company s = do found ← query (company_named s); company_or found (submitted_stub s)

  abbrev suffix_of : String → String
  suffix_of mime = if str_eq mime "application/pdf" then ".pdf" else ".pptx"

  -- The key that `ObjectStore.put` gives.
  abbrev object_key : String → String → String
  object_key digest suffix =
      append (first_chars 2 digest) (append "/" (append draw.object_id suffix))

  abbrev pub deck_document : Submission → ℕ → List ℕ → String → Document
  deck_document s company bytes mime = record {
    id = draw.document_id;
    org_id = some s.org_id;
    company_id = some company;
    kind = "deck";
    filename =
        some (tools.path_name (text_or s.original_filename (append "deck" (suffix_of mime))));
    mime = some mime;
    size_bytes = some (length bytes);
    sha256 = tools.sha256 bytes;
    s3_key = object_key (tools.sha256 bytes) (suffix_of mime);
    page_count = none;
    parse_status = "pending";
    parser = none;
    uploaded_by = s.uploaded_by;
    created_at = draw.creation.now;
  }

  abbrev pub document_or : Option Document → Document → Tx Db (Option Document)
  document_or (some d) new = pure (some d)
  document_or none new = do modify (set_documents (λ ds. ds ++ new ∷ [])); pure (some new)

  abbrev pub stored : Submission → ℕ → List ℕ → Result String → Tx Db (Option Document)
  stored s company bytes (err e) = raise e
  stored s company bytes (ok mime) = do
    found ← query (λ db.
        find_where
          (λ (d : Document). opt_is d.org_id s.org_id && str_eq d.sha256 (tools.sha256 bytes))
          db.documents)
    document_or found (deck_document s company bytes mime)

  abbrev pub stored_deck : Submission → ℕ → Option (List ℕ) → Tx Db (Option Document)
  stored_deck s company none = pure none
  stored_deck s company (some bytes) = stored s company bytes (sniff_document_mime bytes)

  -- The document of a submission: the deck, unless the organisation has it already.
  unfoldable pub submitted_document : Submission → ℕ → Tx Db (Option Document)
  unfolding sniff_document_mime first_chars
  submitted_document s company = stored_deck s company s.deck_bytes

  -- A new opportunity, with the default thesis of the organisation.
  abbrev pub inbound : Submission → Company → Db → Opportunity
  inbound s company db =
      new_opportunity draw.creation s.org_id company OpportunityOrigin.inbound
        (thesis_id_of (find_where (default_thesis s.org_id) db.theses)) draw.creation.now

  abbrev pub opportunity_or : Option Opportunity → Submission → Company → Tx Db Opportunity
  opportunity_or (some o) s company = pure o
  opportunity_or none s company = do
    o ← query (inbound s company)
    modify (add_opportunity o)
    pure o

  -- The live opportunity of the company, or a new one.
  unfoldable pub submitted_opportunity : Submission → Company → Tx Db Opportunity
  submitted_opportunity s company = do
    live ← query (λ db. find_where (live_for s.org_id company.id) db.opportunities)
    opportunity_or live s company

  abbrev pub tracking_token : Submission → Option String
  tracking_token s = if s.is_public then some draw.token else none

  abbrev pub application_row : Submission → ℕ → Option ℕ → Application
  application_row s opportunity document = record {
    id = draw.application_id;
    org_id = s.org_id;
    opportunity_id = some opportunity;
    company_name = strip s.company_name;
    deck_document_id = document;
    contact_email = folded tools.base s.contact.contact_email;
    contact_name = s.contact.contact_name;
    website = s.contact.website;
    artifacts = s.contact.artifacts;
    notes = s.notes;
    status = ApplicationStatus.received;
    submitted_ip = s.submitted_ip;
    source_channel = some s.source_channel;
    received_at = draw.creation.now;
    tracking_token_hash = if s.is_public then some (tools.hash_text draw.token) else none;
  }

  abbrev pub application_job : Submission → ℕ → Option ℕ → Job
  application_job s opportunity document = record {
    id = draw.job_id;
    org_id = some s.org_id;
    kind = "application.process";
    status = JobStatus.queued;
    target_type = some "opportunity";
    target_id = some opportunity;
    idempotency_key = s.idempotency_key;
    progress = 0;
    current_step = none;
    input = record {
      opportunity_id = some opportunity;
      application_id = some draw.application_id;
      document_id = document;
      retry_of = none;
      signal_id = none;
      is_public = some s.is_public;
      query = none;
      limit = none;
      channels = none;
      memo_id = none;
      section = none;
      format = none;
    };
    result = none;
    error_code = none;
    error_message = none;
    attempts = 0;
    started_at = none;
    finished_at = none;
    heartbeat_at = none;
    created_at = draw.creation.now;
  }

  -- The application and its job, for the opportunity and the document that are there.
  unfoldable pub file_application : Submission → Opportunity → Option ℕ → Tx Db CreatedApplication
  unfolding strip
  file_application s opportunity document = do
    modify (set_applications (λ rows. rows ++ application_row s opportunity.id document ∷ []))
    modify (set_jobs (λ js. js ++ application_job s opportunity.id document ∷ []))
    pure (record {
      application = application_row s opportunity.id document;
      opportunity = opportunity;
      job = application_job s opportunity.id document;
      tracking_token = tracking_token s;
      replayed = false;
    })

  -- The steps of a submission that is not replayed, from the last one on.
  unfoldable pub submit_founder :
      Submission → Company → Option Document → Opportunity → Tx Db CreatedApplication
  unfolding ensure_application_founder file_application
  submit_founder s company document opportunity = do
    ensure_application_founder tools.base draw.person_id draw.creation.now company s.contact
    file_application s opportunity (document_id_of document)

  unfoldable pub submit_opportunity :
      Submission → Company → Option Document → Tx Db CreatedApplication
  unfolding submitted_opportunity submit_founder
  submit_opportunity s company document = do
    opportunity ← submitted_opportunity s company
    submit_founder s company document opportunity

  unfoldable pub submit_document : Submission → Company → Tx Db CreatedApplication
  unfolding submitted_document submit_opportunity
  submit_document s company = do
    document ← submitted_document s company.id
    submit_opportunity s company document

  unfoldable pub submit : Submission → Tx Db CreatedApplication
  unfolding submitted_company submit_document
  submit s = do company ← submitted_company s; submit_document s company

  abbrev pub replay_or : Option CreatedApplication → Submission → Tx Db CreatedApplication
  replay_or (some created) s = pure created
  replay_or none s = submit s

  -- `create_application`
  unfoldable pub create_application : Submission → Tx Db CreatedApplication
  unfolding submit replay_of strip
  create_application s = do
    raise_if (str_eq (strip s.company_name) "") name_required
    raise_if (is_none s.deck_bytes && is_blank s.contact.website) deck_required
    prior ← query (replay_of s.org_id s.idempotency_key)
    replay_or prior s
