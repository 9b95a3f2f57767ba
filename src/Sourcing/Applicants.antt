-- ===== src/Sourcing/Applicants.antt =====
-- `ensure_application_founder` of backend/app/services/ingestion.py.
use dolphin_vc.Sourcing.Events.{insert_unless}
use dolphin_vc.Base.{
  ℕ, String, Bool, ◌&&◌, Option, none, some, List, [], ◌∷◌, ◌++◌, ◌==◌, if◌then◌else◌, str_eq,
  is_none, find_where, update_where, any_where,
}
use Prim.Native.String.{◌++◌ as append}
use dolphin_vc.Base.Text.{take}
use dolphin_vc.Session.{Tx, pure, query, modify, ◌>>=◌, ◌>>◌}
use dolphin_vc.Records.{Db, Person, Company, FounderScoreEvent, set_persons, set_founder_events}
use dolphin_vc.Sourcing.Names.{Tools, clean_name, text_or}
use dolphin_vc.Sourcing.Founders.{recompute_founder_score}
use dolphin_vc.Sourcing.People.{
  ensure_affiliation, new_person, add_person, link_of, named, person_is,
}

-- What an applicant tells of the founder.
pub record Contact : Type 0 where
  pub contact_name : Option String
  pub contact_email : Option String
  pub website : Option String
  pub artifacts : List String

abbrev work_samples_reason : String
work_samples_reason = "Founder supplied work samples pending verification."

abbrev sample_event : ℕ → ℕ → FounderScoreEvent
sample_event person now = record {
  person_id = person;
  component = "execution";
  delta = 5500;
  weight = 150;
  reason = work_samples_reason;
  signal_id = none;
  occurred_at = now;
}

abbrev sampled : ℕ → FounderScoreEvent → Bool
sampled person e = e.person_id == person && str_eq e.reason work_samples_reason

abbrev emails_of : Option String → List String
emails_of none = []
emails_of (some email) = email ∷ []

module _ (tools : Tools) where
  -- `contact_email.casefold() if contact_email else None`
  abbrev pub folded : Option String → Option String
  folded none = none
  folded (some email) = if str_eq email "" then none else some (tools.casefold email)

  abbrev pub has_email : String → Person → Bool
  has_email email p = any_where (λ value. str_eq (tools.casefold value) email) p.emails

  abbrev pub person_by_email : Option String → Db → Option Person
  person_by_email none db = none
  person_by_email (some email) db =
      find_where (λ p. is_none p.merged_into_id && has_email email p) db.persons

  abbrev pub or_same_name : Option Person → String → Db → Option Person
  or_same_name (some p) display_name db = some p
  or_same_name none display_name db =
      find_where (named tools (tools.normalize_name display_name)) db.persons

  abbrev applicant : ℕ → ℕ → String → Contact → Person
  applicant id now display_name contact =
      record (new_person id now display_name (tools.normalize_name display_name)) {
        emails = emails_of (folded contact.contact_email);
        links = link_of "website" contact.website;
        work_samples = take 10 contact.artifacts;
        is_stub = str_eq (text_or contact.contact_name (text_or contact.contact_email "")) "";
      }

  abbrev pub with_email : Option String → Person → Tx Db Person
  with_email none p = pure p
  with_email (some email) p = if has_email email p then pure p else do
    modify (
        set_persons (
          update_where (person_is p.id)
            (λ (q : Person). record q { emails = q.emails ++ email ∷ [] })))
    pure (record p { emails = p.emails ++ email ∷ [] })

  unfoldable pub applicant_or : Option Person → ℕ → ℕ → String → Contact → Tx Db Person
  unfolding take any_where
  applicant_or (some p) id now display_name contact = with_email (folded contact.contact_email) p
  applicant_or none id now display_name contact = do
    modify (add_person (applicant id now display_name contact))
    pure (applicant id now display_name contact)

  unfoldable pub credit_samples : ℕ → ℕ → List String → Tx Db (Unit {0})
  credit_samples person now [] = pure tt
  credit_samples person now (_ ∷ _) = do
    has_event ← query (λ db. find_where (sampled person) db.founder_events)
    modify (set_founder_events (insert_unless has_event (sample_event person now)))

  -- What the founder of an application gets of it.
  unfoldable pub credit_founder : ℕ → Company → Contact → Person → Tx Db Person
  unfolding ensure_affiliation credit_samples recompute_founder_score
  credit_founder now company contact p = do
    ensure_affiliation p.id company.id 350
    credit_samples p.id now contact.artifacts
    recompute_founder_score tools now p.id
    pure p

  -- `ensure_application_founder`
  unfoldable pub ensure_application_founder : ℕ → ℕ → Company → Contact → Tx Db Person
  unfolding applicant_or credit_founder clean_name any_where
  ensure_application_founder id now company contact = do
    let display_name =
        clean_name contact.contact_name (append "Unresolved founder at " company.name)
    by_email ← query (person_by_email (folded contact.contact_email))
    found ← query (or_same_name by_email display_name)
    p ← applicant_or found id now display_name contact
    credit_founder now company contact p
