-- ===== src/Applications/Arrival.antt =====
-- What the handlers of applications keep of the database (backend/app/routers/applications.py).
use dolphin_vc.Base.Text.{take}
use dolphin_vc.Sourcing.Applicants.{Contact}
use dolphin_vc.Applications.Submit.{create_application, is_blank, SubmitDraw}
use dolphin_vc.Applications.Handlers.{
  receive_deck, submission_of, application_key_required, read_deck, Form, validate_urls,
  validate_each, receive, public_apply, submit_application, from_result, HandlerTools,
}
use dolphin_vc.Base.{true, false, ℕ, String, Bool, Option, none, some, List, [], ◌∷◌, if◌then◌else◌}
use dolphin_vc.Errors.{AppError, Result, ok, err, not_found_error}
use dolphin_vc.Session.{
  connect, request, Keeps, bind-Keeps, if-Keeps, raise_if, or_raise, commit, pure, ◌>>=◌, ◌>>◌,
}
use dolphin_vc.Records.{Db}
use dolphin_vc.Sourcing.Names.{Tools, text_or}
use dolphin_vc.Sourcing.Frame.{Here}
use dolphin_vc.Sourcing.Kept.{Sourced}
use dolphin_vc.Sourcing.Invariants.{Consistent, consistent}
use dolphin_vc.Applications.Kept.{Filed, create-Here}

module _ (P : Db → Type 0) where
  from_result-Here : {A : Type 0} (r : Result A) → Keeps (Here P) (from_result r)
  from_result-Here (ok a) c h = h
  from_result-Here (err e) c h = h

  or_raise-Here : {A : Type 0} (o : Option A) (e : AppError) → Keeps (Here P) (or_raise o e)
  or_raise-Here none e c h = h
  or_raise-Here (some a) e c h = h

abbrev filed : (tools : Tools) (P : Db → Type 0) → Sourced tools P → Filed P
filed tools P kept = record { free = kept.free; documents = kept.documents; opened = kept.opened }

module _ (tools : HandlerTools) (P : Db → Type 0) where
  validate_each-Here : (urls : List String) → Keeps (Here P) (validate_each tools urls)
  validate_each-Here [] c h = h
  validate_each-Here (url ∷ urls) c h =
      bind-Keeps (Here P) (from_result (tools.validate_public_url url))
        (λ _. validate_each tools urls) (from_result-Here P (tools.validate_public_url url))
        (λ _. validate_each-Here urls) c h

  validate_urls-Here : (contact : Contact) → Keeps (Here P) (validate_urls tools contact)
  unfolding validate_urls
  validate_urls-Here contact =
      bind-Keeps (Here P)
        (if is_blank contact.website
          then pure tt
          else from_result (tools.validate_public_url (text_or contact.website "")))
        (λ _. validate_each tools (take 10 contact.artifacts))
        (if-Keeps (Here P) (is_blank contact.website) (pure tt)
          (from_result (tools.validate_public_url (text_or contact.website ""))) (λ c h. h)
          (from_result-Here P (tools.validate_public_url (text_or contact.website ""))))
        (λ _. validate_each-Here (take 10 contact.artifacts))

  receive-Here :
      (kept : Sourced tools.submit.base P) (draw : SubmitDraw) (form : Form) (org : ℕ)
      (user : Option ℕ) (key : Option String) (is_public : Bool)
      → Keeps (Here P) (receive tools draw form org user key is_public)
  unfolding receive receive_deck
  receive-Here kept draw form org user key is_public =
      bind-Keeps (Here P) (validate_urls tools form.contact)
        (λ _. receive_deck tools draw form org user key is_public) (validate_urls-Here form.contact)
        (λ _.
          bind-Keeps (Here P) (from_result (read_deck tools form.deck))
            (λ bytes.
              create_application tools.submit draw
                (submission_of tools form org bytes user key is_public)
              >>= λ created. commit >> pure created)
            (from_result-Here P (read_deck tools form.deck))
            (λ bytes.
              bind-Keeps (Here P)
                (create_application tools.submit draw
                  (submission_of tools form org bytes user key is_public))
                (λ created. commit >> pure created)
                (create-Here tools.submit draw P (filed tools.submit.base P kept) kept.applications
                  kept.jobs (submission_of tools form org bytes user key is_public))
                (λ created c h. (h.1, h.1))))

-- However the application of a user or of the public ends, it leaves in the database at most one live
-- opportunity of an organisation for a company, at most one signal with a given source, hash and
-- instant, and at most one score and one memo with a given version, if that was so before.
pub application-Consistent :
    (tools : HandlerTools) (draw : SubmitDraw) (form : Form) (org user : ℕ) (key : Option String)
    (fund : Option ℕ) (db : Db)
    → Consistent db
    → Consistent (request (submit_application tools draw form org user key) db).1
      × Consistent (request (public_apply tools draw form fund) db).1
unfolding submit_application public_apply
application-Consistent tools draw form org user key fund db h = (
  (bind-Keeps (Here Consistent) (raise_if (is_blank key) (application_key_required tools))
      (λ _. receive tools draw form org (some user) key false) (λ c k. k)
      (λ _.
        receive-Here tools Consistent (consistent tools.submit.base) draw form org (some user) key
          false)
      (connect db) (h, h)).0,
  (bind-Keeps (Here Consistent) (or_raise fund (not_found_error "Fund was not found."))
      (λ id. receive tools draw form id none none true)
      (or_raise-Here Consistent fund (not_found_error "Fund was not found."))
      (λ id.
        receive-Here tools Consistent (consistent tools.submit.base) draw form id none none true)
      (connect db) (h, h)).0,
)
