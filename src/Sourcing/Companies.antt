-- ===== src/Sourcing/Companies.antt =====
-- `_ensure_company` of backend/app/services/ingestion.py.
use dolphin_vc.Base.{
  String, Bool, false, ◌&&◌, Option, none, some, [], ◌∷◌, ◌++◌, ◌==◌, ℕ, if◌then◌else◌, str_eq,
  is_none, find_where, update_where,
}
use dolphin_vc.Base.Text.{first_chars}
use dolphin_vc.Session.{Tx, pure, query, modify, ◌>>=◌, ◌>>◌}
use dolphin_vc.Records.{Db, Company, Signal, set_companies}
use dolphin_vc.Opportunities.Creation.{stub_company}
use dolphin_vc.Sourcing.Names.{Tools, company_name_from_signal, company_domain, text_or}
use dolphin_vc.Sourcing.People.{later_of, link_of}

abbrev company_is : ℕ → Company → Bool
company_is id c = c.id == id

abbrev same_domain : Option String → String → Bool
same_domain none domain = false
same_domain (some d) domain = str_eq d domain

abbrev domain_is : String → Company → Bool
domain_is domain c = same_domain c.domain domain && is_none c.merged_into_id

abbrev by_domain : Option String → Db → Option Company
by_domain none db = none
by_domain (some domain) db = find_where (domain_is domain) db.companies

abbrev pub called : String → Company → Bool
called normalized c = str_eq c.normalized_name normalized && is_none c.merged_into_id

abbrev or_called : Option Company → String → Db → Option Company
or_called (some c) normalized db = some c
or_called none normalized db = find_where (called normalized) db.companies

abbrev or_null : String → Option String
or_null s = if str_eq s "" then none else some s

-- What a further signal leaves on its company.
abbrev heard : Signal → Company → Company
heard signal c = record c { last_signal_at = later_of c.last_signal_at signal.observed_at }

module _ (tools : Tools) where
  -- The company that a signal tells of.
  abbrev pub told_company : ℕ → Signal → Company
  told_company id signal =
      let name = company_name_from_signal tools signal in
      record (stub_company id name (tools.normalize_name name)) {
        domain = company_domain tools signal;
        links = link_of "source" signal.url;
        one_liner = or_null (first_chars 500 (text_or signal.body (text_or signal.title "")));
        is_stub = false;
      }

  -- The queries by the domain and by the name.
  unfoldable pub known_company : Signal → Db → Option Company
  unfolding company_name_from_signal company_domain
  known_company signal db =
      or_called (by_domain (company_domain tools signal) db)
        (tools.normalize_name (company_name_from_signal tools signal)) db

  abbrev pub company_or : Option Company → ℕ → Signal → Tx Db Company
  company_or (some c) id signal = pure c
  company_or none id signal = do
    modify (set_companies (λ cs. cs ++ told_company id signal ∷ []))
    pure (told_company id signal)

  -- `_ensure_company`
  unfoldable pub ensure_company : ℕ → Signal → Tx Db Company
  unfolding known_company first_chars
  ensure_company id signal = do
    found ← query (known_company signal)
    c ← company_or found id signal
    modify (set_companies (update_where (company_is c.id) (heard signal)))
    pure (heard signal c)
