-- ===== src/Applications/Kept.antt =====
-- What a submission keeps of the database (`create_application` of
-- backend/app/services/applications.py).
use dolphin_vc.Opportunities.Creation.{add_opportunity}
use dolphin_vc.Sourcing.Founders.{recompute_founder_score}
use dolphin_vc.Sourcing.People.{ensure_affiliation}
use Prim.Native.String.{◌++◌ as append}
use dolphin_vc.Applications.Upload.{sniff_document_mime}
use dolphin_vc.Opportunities.Commands.{live_for}
use dolphin_vc.Base.Text.{strip}
use dolphin_vc.Applications.Submit.{
  replay_of, document_id_of, deck_required, submitted_document, is_blank, deck_document,
  submit_founder, submit_opportunity, name_required, inbound, submit_document, stored_deck, stored,
  replay_or, company_named, application_row, submitted_opportunity, submitted_company, submit,
  file_application, document_or, create_application, Submission, CreatedApplication, SubmitDraw,
  SubmitTools,
}
use dolphin_vc.Sourcing.Applicants.{
  or_same_name, person_by_email, has_email, credit_founder, with_email, ensure_application_founder,
  folded, Contact, credit_samples, applicant_or,
}
use dolphin_vc.Base.{
  ◌≡◌, ◌&&◌, is_none, opt_is, ℕ, inl, inr, String, Option, none, some, List, [], ◌∷◌, ◌++◌,
  find_where, Option-cases, str_eq,
}
use dolphin_vc.Errors.{Result, ok, err}
use dolphin_vc.Session.{◌>>◌, ◌>>=◌, query, Keeps, bind-Keeps, if-Keeps, raise_if, pure}
use dolphin_vc.Records.{Job, Application, Db, Company, Document, Person, Opportunity}
use dolphin_vc.Sourcing.Names.{clean_name, Tools}
use dolphin_vc.Sourcing.Frame.{Beside, recompute-Here, ensure_affiliation-Here, Indifferent, Here}

module _ (tools : Tools) (C P : Db → Type 0) (free : Indifferent P) where
  with_email-Here :
      (email : Option String) (p : Person) → Keeps (Beside C P) (with_email tools email p)
  with_email-Here none p = λ c h. h
  with_email-Here (some email) p =
      if-Keeps (Beside C P) (has_email tools email p) (pure p) _ (λ c h. h)
        (λ c h. (h.0, free.persons _ c.working h.1))

  applicant_or-Here :
      (found : Option Person) (id now : ℕ) (name : String) (contact : Contact)
      → Keeps (Beside C P) (applicant_or tools found id now name contact)
  unfolding applicant_or
  applicant_or-Here (some p) id now name contact =
      with_email-Here (folded tools contact.contact_email) p
  applicant_or-Here none id now name contact = λ c h. (h.0, free.persons _ c.working h.1)

  credit_samples-Here :
      (person now : ℕ) (artifacts : List String)
      → Keeps (Beside C P) (credit_samples tools person now artifacts)
  unfolding credit_samples
  credit_samples-Here person now [] c h = h
  credit_samples-Here person now (_ ∷ _) c h = (h.0, free.founder_events _ c.working h.1)

  pub founder-Here :
      (id now : ℕ) (company : Company) (contact : Contact)
      → Keeps (Beside C P) (ensure_application_founder tools id now company contact)
  unfolding ensure_application_founder credit_founder
  founder-Here id now company contact c h =
      let name = clean_name contact.contact_name (append "Unresolved founder at " company.name) in
      let found =
        or_same_name tools (person_by_email tools (folded tools contact.contact_email) c.working)
          name c.working in
      bind-Keeps (Beside C P) (applicant_or tools found id now name contact)
        (credit_founder tools now company contact) (applicant_or-Here found id now name contact)
        (λ p.
          bind-Keeps (Beside C P) (ensure_affiliation p.id company.id 350)
            (λ _.
              credit_samples tools p.id now contact.artifacts
              >> (recompute_founder_score tools now p.id >> pure p))
            (ensure_affiliation-Here tools C P free p.id company.id 350)
            (λ _.
              bind-Keeps (Beside C P) (credit_samples tools p.id now contact.artifacts)
                (λ _. recompute_founder_score tools now p.id >> pure p)
                (credit_samples-Here p.id now contact.artifacts)
                (λ _.
                  bind-Keeps (Beside C P) (recompute_founder_score tools now p.id) (λ _. pure p)
                    (recompute-Here tools C P free now p.id) (λ _ c' h'. h'))))
        c h

-- A property of the database that what a submission writes before its application keeps.
pub record Filed (P : Db → Type 0) : Type 0 where
  pub free : Indifferent P
  pub documents : (rows : List Document) (db : Db) → P db → P (record db { documents = rows })
  pub opened :
      (o : Opportunity) (db : Db)
      → find_where (live_for o.org_id o.company_id) db.opportunities ≡ none
      → P db
      → P (add_opportunity o db)

module _ (tools : SubmitTools) (draw : SubmitDraw) (P : Db → Type 0) (kept : Filed P) where
  pub company-Here : (s : Submission) → Keeps (Here P) (submitted_company tools draw s)
  unfolding submitted_company
  company-Here s c h = elim (Option-cases (company_named tools draw s c.working)) [
    | inl missing ↦ rw missing (h.0, kept.free.companies _ c.working h.1)
    | inr (x, found) ↦ rw found h
  ]

  document_or-Here :
      (found : Option Document) (new : Document) → Keeps (Here P) (document_or tools draw found new)
  document_or-Here none new c h = (h.0, kept.documents _ c.working h.1)
  document_or-Here (some d) new c h = h

  stored-Here :
      (s : Submission) (company : ℕ) (bytes : List ℕ) (mime : Result String)
      → Keeps (Here P) (stored tools draw s company bytes mime)
  stored-Here s company bytes (err e) c h = h
  stored-Here s company bytes (ok mime) c h =
      document_or-Here
        (find_where
          (λ (d : Document). opt_is d.org_id s.org_id && str_eq d.sha256 (tools.sha256 bytes))
          c.working.documents)
        (deck_document tools draw s company bytes mime) c h

  pub stored_deck-Here :
      (s : Submission) (company : ℕ) (bytes : Option (List ℕ))
      → Keeps (Here P) (stored_deck tools draw s company bytes)
  stored_deck-Here s company none = λ c h. h
  stored_deck-Here s company (some bytes) = stored-Here s company bytes (sniff_document_mime bytes)

  pub opportunity-Here :
      (s : Submission) (company : Company)
      → Keeps (Here P) (submitted_opportunity tools draw s company)
  unfolding submitted_opportunity
  opportunity-Here s company c h =
      elim (Option-cases (find_where (live_for s.org_id company.id) c.working.opportunities)) [
        | inl missing ↦
            rw missing
              (h.0, kept.opened (inbound tools draw s company c.working) c.working missing h.1)
        | inr (o, found) ↦ rw found h
      ]

module _ (tools : SubmitTools) (draw : SubmitDraw) (P : Db → Type 0) (kept : Filed P)
    (applications : (rows : List Application) (db : Db)
      → P db
      → P (record db { applications = rows }))
    (jobs : (rows : List Job) (db : Db) → P db → P (record db { jobs = rows })) where
  file-Here :
      (s : Submission) (o : Opportunity) (document : Option ℕ)
      → Keeps (Here P) (file_application tools draw s o document)
  unfolding file_application
  file-Here s o document c h = (
    h.0,
    jobs _ _ (
        applications (c.working.applications ++ application_row tools draw s o.id document ∷ [])
          c.working h.1),
  )

  submit-Here : (s : Submission) → Keeps (Here P) (submit tools draw s)
  unfolding submit submit_document submit_opportunity submit_founder submitted_document
  submit-Here s =
      bind-Keeps (Here P) (submitted_company tools draw s) (submit_document tools draw s)
        (company-Here tools draw P kept s)
        (λ company.
          bind-Keeps (Here P) (submitted_document tools draw s company.id)
            (submit_opportunity tools draw s company)
            (stored_deck-Here tools draw P kept s company.id s.deck_bytes)
            (λ document.
              bind-Keeps (Here P) (submitted_opportunity tools draw s company)
                (submit_founder tools draw s company document)
                (opportunity-Here tools draw P kept s company)
                (λ o.
                  bind-Keeps (Here P)
                    (ensure_application_founder tools.base draw.person_id draw.creation.now company
                      s.contact)
                    (λ _. file_application tools draw s o (document_id_of document))
                    (founder-Here tools.base P P kept.free draw.person_id draw.creation.now company
                      s.contact)
                    (λ _. file-Here s o (document_id_of document)))))

  replay_or-Here :
      (prior : Option CreatedApplication) (s : Submission)
      → Keeps (Here P) (replay_or tools draw prior s)
  replay_or-Here none s = submit-Here s
  replay_or-Here (some created) s = λ c h. h

  -- A submission keeps the property.
  pub create-Here : (s : Submission) → Keeps (Here P) (create_application tools draw s)
  unfolding create_application
  create-Here s =
      bind-Keeps (Here P) (raise_if (str_eq (strip s.company_name) "") name_required) _ (λ c h. h)
        (λ _.
          bind-Keeps (Here P)
            (raise_if (is_none s.deck_bytes && is_blank s.contact.website) deck_required)
            (λ _. query (replay_of s.org_id s.idempotency_key) >>= λ prior.
              replay_or tools draw prior s)
            (λ c h. h)
            (λ _ c h. replay_or-Here (replay_of s.org_id s.idempotency_key c.working) s c h))
