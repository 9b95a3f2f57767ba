-- ===== src/Opportunities/Liveness.antt =====
-- The live opportunities of an organisation for a company
-- (backend/app/services/opportunities.py, backend/app/routers/opportunities.py).
use dolphin_vc.Base.{
  ℕ, ◌+◌, ◌≤◌, ◌≡◌, inl, inr, String, Bool, true, false, Option, none, some, arith, ◌==◌, str_eq,
  ap, Bool-cases, bit, find_where, count_where, Option-cases, ==_refl, count_where-insert,
  count_where-update_where-gt, find_where-none→count_where, find_where-holds,
}
use dolphin_vc.Types.{OpportunityStage, OpportunityOrigin}
use dolphin_vc.Errors.{AppError, Result, Result-cases, ok, err}
use dolphin_vc.Session.{request}
use dolphin_vc.Records.{Company, Opportunity, Db}
use dolphin_vc.Opportunities.Commands.{
  OpportunityUpdate, live_for, has_id, owned, is_archived, find_opportunity, patched,
  update_opportunity,
}
use dolphin_vc.Opportunities.Creation.{
  CreationDraw, CompanyRef, resolve_company, create_opportunity, new_opportunity, add_opportunity,
  stub_company, by_id, by_name,
}

abbrev pub live_count : ℕ → ℕ → Db → ℕ
live_count org company db = count_where (live_for org company) db.opportunities

-- No organisation has two live opportunities for a company.
pub record IsUnique (db : Db) : Type 0 where
  pub at_company : (org company : ℕ) → live_count org company db ≤ 1

bit-le : (b : Bool) → bit b ≤ 1
bit-le b = ground arith

-- A row goes in where its company has no live one: no company gets a second.
pub added_count :
    (org company org' company' : ℕ) (new : Opportunity) (db : Db)
    → new.org_id ≡ org
    → new.company_id ≡ company
    → live_count org company db ≡ 0
    → live_count org' company' db ≤ 1
    → live_count org' company' (add_opportunity new db) ≤ 1
added_count org company org' company' new db eo ec zero_before h =
    elim (Bool-cases (live_for org' company' new)) [
      | inr other ↦
          omega
            (arith, ap bit other, count_where-insert (live_for org' company') db.opportunities new)
      | inl same ↦
          let e1 : org' ≡ org = ground arith in
          let e2 : company' ≡ company = ground arith in
          rw (e1, e2)
            (omega (
              arith,
              zero_before,
              bit-le (live_for org company new),
              count_where-insert (live_for org company) db.opportunities new,
            ))
    ]

module _ (normalize : String → String) (draw : CreationDraw) (org : ℕ) where
  module _ (origin : OpportunityOrigin) (thesis_id : Option ℕ) (db : Db) where
    abbrev pub creation : CompanyRef → Result Opportunity × Db
    creation ref = request (create_opportunity normalize draw org ref origin thesis_id) db

    -- A request that succeeds has found no live opportunity of the company that it resolved.
    creation_trace :
        (ref : CompanyRef) (o : Opportunity)
        → (creation ref).0 ≡ ok o
        → (c : Company) × (o ≡ new_opportunity draw org c origin thesis_id draw.now)
          × (find_where (live_for org c.id) db.opportunities ≡ none)
          × ((creation ref).1.opportunities ≡ (add_opportunity o db).opportunities)
    unfolding create_opportunity resolve_company
    creation_trace (by_id id) o h =
        elim (Option-cases (find_where (λ (c : Company). c.id == id) db.companies)) [
          | inl missing ↦ absurd (ground arith)
          | inr (c, found) ↦ (c, ground arith, ground arith, ground arith)
        ]
    creation_trace (by_name name) o h =
        elim (Option-cases
          (find_where (λ (c : Company). str_eq c.normalized_name (normalize name)) db.companies)) [
            | inl missing ↦ (
              stub_company draw.company_id name (normalize name),
              ground arith,
              ground arith,
              ground arith,
            )
            | inr (c, found) ↦ (c, ground arith, ground arith, ground arith)
          ]

    refused_creation :
        (ref : CompanyRef) (e : AppError) → (creation ref).0 ≡ err e → (creation ref).1 ≡ db
    unfolding create_opportunity resolve_company
    refused_creation (by_id id) e h = ground arith
    refused_creation (by_name name) e h = ground arith

    -- Creating an opportunity by hand leaves no company with two live opportunities in one
    -- organisation, if none had two before, whether the request succeeds or is refused.
    pub creation-IsUnique : (ref : CompanyRef) → IsUnique db → IsUnique (creation ref).1
    creation-IsUnique ref h = elim (Result-cases (creation ref).0) [
      | inl (e, refused) ↦ rw (refused_creation ref e refused) h
      | inr (o, made) ↦
          let (c, new, none_live, written) = creation_trace ref o made in
          record {
            at_company = λ org' company'. rw written (
                added_count org c.id org' company' o db (ground arith) (ground arith)
                  (find_where-none→count_where (live_for org c.id) db.opportunities none_live)
                  (h.at_company org' company'));
          }
    ]

-- A PATCH that is told the version of an archived opportunity brings it back to any other stage, also
-- where the company has a live one: the organisation then has at least one live opportunity more for
-- that company.
update_revives :
    (org id : ℕ) (body : OpportunityUpdate) (stage : OpportunityStage) (db : Db) (o : Opportunity)
    → find_opportunity org id db ≡ some o
    → is_archived o.stage ≡ true
    → body.stage ≡ some stage
    → is_archived stage ≡ false
    → live_count org o.company_id db + 1
      ≤ live_count org o.company_id (request (update_opportunity org id body (some o.version)) db).1
unfolding update_opportunity patched
update_revives org id body stage db o found gone set live =
    let more =
      count_where-update_where-gt (live_for org o.company_id) (has_id o.id) (owned org id)
        (patched body) db.opportunities o (λ x. ground arith) found (ground arith)
        (ground (arith, ==_refl o.id, find_where-holds (owned org id) db.opportunities o found)) in
    ground (arith, ==_refl o.version, more)
