-- ===== src/Opportunities/Creation.antt =====
-- `create_manual_opportunity` of backend/app/services/opportunities.py and its handler
-- `create_opportunity`.
use dolphin_vc.Base.{
  ℕ, ◌+◌, ◌*◌, String, true, Option, none, some, [], ◌∷◌, ◌++◌, ◌==◌, is_some, str_eq, find_where,
}
use dolphin_vc.Types.{OpportunityOrigin, sourced}
use dolphin_vc.Errors.{AppError, ErrorCode, not_found_error, conflict_error}
use dolphin_vc.Session.{Tx, pure, query, modify, commit, or_raise, raise_if, ◌>>=◌, ◌>>◌}
use dolphin_vc.Records.{Company, Opportunity, Db, set_opportunities}
use dolphin_vc.Opportunities.Commands.{live_for}

-- The clock, the ids that the request draws, and the setting for the deadline.
pub record CreationDraw : Type 0 where
  pub now : ℕ
  pub company_id : ℕ
  pub opportunity_id : ℕ
  pub decision_sla_hours : ℕ

-- A company of which only the name is known.
abbrev pub stub_company : ℕ → String → String → Company
stub_company id name normalized = record {
  id = id;
  name = name;
  normalized_name = normalized;
  domain = none;
  sectors = [];
  stage = none;
  hq_country = none;
  one_liner = none;
  description = none;
  links = [];
  is_stub = true;
  last_signal_at = none;
  merged_into_id = none;
}

-- A new opportunity; what its columns default to included.
abbrev pub new_opportunity :
    CreationDraw → ℕ → Company → OpportunityOrigin → Option ℕ → ℕ → Opportunity
new_opportunity draw org_id company origin thesis_id first_signal_at = record {
  id = draw.opportunity_id;
  org_id = org_id;
  company_id = company.id;
  thesis_id = thesis_id;
  origin = origin;
  stage = sourced;
  title = some company.name;
  thesis_fit = none;
  first_signal_at = first_signal_at;
  screened_at = none;
  memo_ready_at = none;
  decided_at = none;
  sla_deadline_at = draw.now + draw.decision_sla_hours * 3600;
  decision = none;
  decision_by = none;
  decision_rationale = none;
  assigned_to = none;
  updated_at = draw.now;
  version = 1;
}

abbrev add_company : Company → Db → Db
add_company c db = record db { companies = db.companies ++ c ∷ [] }

abbrev pub add_opportunity : Opportunity → Db → Db
add_opportunity o = set_opportunities (λ os. os ++ o ∷ [])

-- The company of a request: by its id, or by its name, and then a stub where there is none.
pub data CompanyRef : Type 0 where
  by_id : ℕ → CompanyRef
  by_name : String → CompanyRef

abbrev pub duplicate_opportunity : AppError
duplicate_opportunity =
    conflict_error "A live opportunity already exists for this company."
      ErrorCode.duplicate_opportunity

module _ (normalize_name : String → String) (draw : CreationDraw) where
  found_or_stub : String → Option Company → Tx Db Company
  found_or_stub name none = do
    modify (add_company (stub_company draw.company_id name (normalize_name name)))
    pure (stub_company draw.company_id name (normalize_name name))
  found_or_stub name (some c) = pure c

  unfoldable pub resolve_company : CompanyRef → Tx Db Company
  unfolding found_or_stub
  resolve_company (by_id id) = do
    found ← query (λ db. find_where (λ (c : Company). c.id == id) db.companies)
    or_raise found (not_found_error "Company was not found.")
  resolve_company (by_name name) = do
    found ← query (λ db.
        find_where (λ (c : Company). str_eq c.normalized_name (normalize_name name)) db.companies)
    found_or_stub name found

  unfoldable create_manual_opportunity :
      ℕ → CompanyRef → OpportunityOrigin → Option ℕ → Tx Db Opportunity
  create_manual_opportunity org_id ref origin thesis_id = do
    company ← resolve_company ref
    existing ← query (λ db. find_where (live_for org_id company.id) db.opportunities)
    raise_if (is_some existing) duplicate_opportunity
    modify (add_opportunity (new_opportunity draw org_id company origin thesis_id draw.now))
    pure (new_opportunity draw org_id company origin thesis_id draw.now)

  unfoldable pub create_opportunity :
      ℕ → CompanyRef → OpportunityOrigin → Option ℕ → Tx Db Opportunity
  unfolding create_manual_opportunity
  create_opportunity org_id ref origin thesis_id = do
    o ← create_manual_opportunity org_id ref origin thesis_id
    commit
    pure o
