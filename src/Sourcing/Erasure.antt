-- ===== src/Sourcing/Erasure.antt =====
-- The erasure of a person, `gdpr_erase` of backend/app/routers/operations.py.
use Prim.Native.String.{◌++◌ as append}
use dolphin_vc.Base.{ℕ, String, none, [], find_where, update_where}
use dolphin_vc.Errors.{not_found_error}
use dolphin_vc.Session.{Tx, query, or_raise, modify, commit, ◌>>=◌, ◌>>◌}
use dolphin_vc.Records.{Db, Person, set_persons}
use dolphin_vc.Sourcing.People.{person_is}

module _ (show : ℕ → String) where
  -- `f"erased-{person.id}"`
  abbrev pub erased_name : ℕ → String
  erased_name id = append "erased-" (show id)

  -- The links hold the identities and the work samples.
  abbrev pub erased : Person → Person
  erased p = record p {
    display_name = "Erased data subject";
    normalized_name = erased_name p.id;
    headline = none;
    bio = none;
    emails = [];
    links = [];
    identities = [];
    work_samples = [];
    education = [];
    employment = [];
  }

  -- `gdpr_erase`
  unfoldable pub gdpr_erase : ℕ → Tx Db (Unit {0})
  gdpr_erase id = do
    found ← query (λ db. find_where (person_is id) db.persons)
    p ← or_raise found (not_found_error "Founder was not found.")
    modify (set_persons (update_where (person_is p.id) erased))
    commit
