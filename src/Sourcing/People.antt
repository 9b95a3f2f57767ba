-- ===== src/Sourcing/People.antt =====
-- The people behind a signal or an application: `_identity_hints`, `_identity_link`,
-- `_person_by_identity`, `_ensure_affiliation`, `_ensure_signal_person` and
-- `ensure_application_founder` of backend/app/services/ingestion.py. A person's `links` are texts but
-- for `identities` and `work_samples`, which stand apart.
use dolphin_vc.Base.{
  ℕ, ◌+◌, String, Bool, true, false, not, ◌&&◌, ◌||◌, Option, none, some, List, [], ◌∷◌, ◌++◌, ltb,
  ◌==◌, if◌then◌else◌, str_eq, is_none, opt_is, find_where, select_where, update_where, max,
}
use Prim.Native.String.{◌++◌ as append}
use dolphin_vc.Session.{Tx, pure, query, modify, ◌>>=◌, ◌>>◌}
use dolphin_vc.Records.{
  Db, Person, Affiliation, Signal, IdentityHint, set_persons, set_affiliations,
}
use dolphin_vc.Sourcing.Names.{Tools, clean_name}
use dolphin_vc.Sourcing.Founders.{order_by}

-- `_identity_hints`: the hints with a value
unfoldable pub identity_hints : Signal → List IdentityHint
identity_hints signal =
    select_where (λ (h : IdentityHint). not (str_eq h.value "")) signal.identity_hints

-- `max(hints, key=confidence)`: the first of the highest
unfoldable pub surest : IdentityHint → List IdentityHint → IdentityHint
surest h [] = h
surest h (g ∷ rest) = surest (if ltb h.confidence g.confidence then g else h) rest

-- `_identity_link`
abbrev identity_link : String → String → Option String
identity_link provider value =
    if str_eq provider "github"
    then some (append "https://github.com/" value)
    else if str_eq provider "hackernews"
    then some (append "https://news.ycombinator.com/user?id=" value)
    else none

-- `str(links.get(key, ""))`
unfoldable pub lookup_text : String → List (String × String) → String
lookup_text key [] = ""
lookup_text key ((k, value) ∷ rest) =
    let found = lookup_text key rest in if str_eq k key then value else found

-- The later of an instant that may be missing and another.
abbrev pub later_of : Option ℕ → ℕ → Option ℕ
later_of none observed = some observed
later_of (some last) observed = some (max last observed)

abbrev pub person_is : ℕ → Person → Bool
person_is id p = p.id == id

abbrev affiliates : ℕ → ℕ → Affiliation → Bool
affiliates person company a =
    a.person_id == person && (a.company_id == company && str_eq a.role "founder")

abbrev founder_row : ℕ → ℕ → ℕ → Affiliation
founder_row person company confidence = record {
  person_id = person;
  company_id = company;
  role = "founder";
  is_founder = true;
  confidence = confidence;
}

abbrev with_affiliation : Option Affiliation → ℕ → ℕ → ℕ → List Affiliation → List Affiliation
with_affiliation none person company confidence rows =
    rows ++ founder_row person company confidence ∷ []
with_affiliation (some _) person company confidence rows =
    update_where (affiliates person company)
      (λ a. record a { is_founder = true; confidence = max a.confidence confidence }) rows

-- `_ensure_affiliation`
unfoldable pub ensure_affiliation : ℕ → ℕ → ℕ → Tx Db (Unit {0})
ensure_affiliation person company confidence = do
  existing ← query (λ db. find_where (affiliates person company) db.affiliations)
  modify (set_affiliations (with_affiliation existing person company confidence))

-- A new person; what the columns default to included.
abbrev pub new_person : ℕ → ℕ → String → String → Person
new_person id now display_name normalized = record {
  id = id;
  display_name = display_name;
  normalized_name = normalized;
  headline = none;
  bio = none;
  emails = [];
  links = [];
  identities = [];
  work_samples = [];
  education = [];
  employment = [];
  last_signal_at = none;
  signal_count = 0;
  source_count = 0;
  is_stub = false;
  merged_into_id = none;
  created_at = now;
}

abbrev pub link_of : String → Option String → List (String × String)
link_of key none = []
link_of key (some value) = if str_eq value "" then [] else (key, value) ∷ []

abbrev pub add_person : Person → Db → Db
add_person p = set_persons (λ ps. ps ++ p ∷ [])

module _ (tools : Tools) where
  abbrev pub same_text : String → String → Bool
  same_text a b = str_eq (tools.casefold a) (tools.casefold b)

  abbrev pub has_identity : String → String → Person → Bool
  has_identity provider value p =
      same_text (lookup_text provider p.links) value
      || same_text (lookup_text provider p.identities) value

  abbrev pub named : String → Person → Bool
  named normalized p = str_eq p.normalized_name normalized && is_none p.merged_into_id

  abbrev pub or_named : Option Person → String → Db → Option Person
  or_named (some p) normalized db = some p
  or_named none normalized db =
      if str_eq normalized "" then none else find_where (named normalized) db.persons

  -- `_person_by_identity`
  unfoldable pub person_by_identity : String → String → Db → Option Person
  unfolding order_by lookup_text
  person_by_identity provider value db =
      or_named
        (find_where (has_identity provider value) (
          order_by (λ (p : Person). p.created_at)
            (select_where (λ (p : Person). is_none p.merged_into_id) db.persons)))
        (tools.normalize_name value) db

  -- The person that a hint tells of.
  abbrev hinted : ℕ → ℕ → String → String → Person
  hinted id now provider value = record (new_person id now value (tools.normalize_name value)) {
    links = link_of provider (identity_link provider value);
    identities = (provider, value) ∷ [];
    is_stub = str_eq provider "github" || str_eq provider "hackernews";
  }

  abbrev pub person_or : Option Person → ℕ → ℕ → String → String → Tx Db Person
  person_or (some p) id now provider value = pure p
  person_or none id now provider value = do
    modify (add_person (hinted id now provider value))
    pure (hinted id now provider value)

  -- What a further signal leaves on its person.
  abbrev pub seen : Signal → Person → Person
  seen signal p = record p {
    last_signal_at = later_of p.last_signal_at signal.observed_at;
    signal_count = p.signal_count + 1;
    source_count = p.source_count + 1;
  }

  abbrev pub count_signal : Signal → Person → Tx Db Person
  count_signal signal p = if opt_is signal.person_id p.id then pure p else do
    modify (set_persons (update_where (person_is p.id) (seen signal)))
    pure (seen signal p)

  abbrev pub hinted_person : Signal → ℕ → ℕ → List IdentityHint → Tx Db (Option Person)
  hinted_person signal id now [] = pure none
  hinted_person signal id now (h ∷ hints) = do
    let hint = surest h hints
    let value = clean_name (some hint.value) "Unknown founder"
    found ← query (person_by_identity hint.provider value)
    p ← person_or found id now hint.provider value
    counted ← count_signal signal p
    pure (some counted)

  -- `_ensure_signal_person`
  unfoldable pub ensure_signal_person : Signal → ℕ → ℕ → Tx Db (Option Person)
  unfolding identity_hints surest clean_name person_by_identity
  ensure_signal_person signal id now = hinted_person signal id now (identity_hints signal)
