-- ===== src/Opportunities/Commands.antt =====
-- `get_opportunity`, `create_manual_opportunity` and `_sla` of backend/app/services/opportunities.py,
-- and the handlers that create, update, decide and archive.
use dolphin_vc.Base.{
  ℕ, ◌+◌, ◌*◌, String, Bool, true, false, not, ◌&&◌, Option, none, some, List, [], ◌∷◌, ◌++◌, ltb,
  leb, ◌==◌, opt_is, if◌then◌else◌, is_some, is_none, str_eq, find_where, any_where, update_where,
  count_where,
}
use dolphin_vc.Types.{OpportunityStage, DecisionKind, ApplicationStatus, archived, decided}
use dolphin_vc.Errors.{AppError, ErrorCode, app_error, not_found_error, conflict_error}
use dolphin_vc.Session.{Tx, pure, raise, query, modify, commit, or_raise, raise_if, ◌>>=◌, ◌>>◌}
use dolphin_vc.Auth.Model.{Principal}
use dolphin_vc.Records.{Application, Opportunity, Claim, Evidence, AuditLog, Db, set_opportunities}

-- `stage == OpportunityStage.ARCHIVED`
abbrev pub is_archived : OpportunityStage → Bool
is_archived OpportunityStage.archived = true
is_archived _ = false

abbrev is_pass : DecisionKind → Bool
is_pass DecisionKind.pass = true
is_pass _ = false

abbrev pub owned : ℕ → ℕ → Opportunity → Bool
owned org_id id o = (o.id == id) && (o.org_id == org_id)

abbrev pub has_id : ℕ → Opportunity → Bool
has_id id o = o.id == id

-- `select(Opportunity).where(org, company, stage != ARCHIVED)`
abbrev pub live_for : ℕ → ℕ → Opportunity → Bool
live_for org_id company_id o =
    (o.org_id == org_id) && ((o.company_id == company_id) && not (is_archived o.stage))

abbrev pub find_opportunity : ℕ → ℕ → Db → Option Opportunity
find_opportunity org_id id db = find_where (owned org_id id) db.opportunities

unfoldable pub get_opportunity : ℕ → ℕ → Tx Db Opportunity
get_opportunity org_id id = do
  found ← query (find_opportunity org_id id)
  or_raise found (not_found_error "Opportunity was not found.")

-- The attributes that a row takes, by its primary key.
abbrev pub save : ℕ → (Opportunity → Opportunity) → Db → Db
save id g = set_opportunities (update_where (has_id id) g)

-- The fields of `OpportunityUpdate` that the request sets. A stage of null, which the column does
-- not hold, is left out.
pub record OpportunityUpdate : Type 0 where
  pub assigned_to : Option (Option ℕ)
  pub stage : Option OpportunityStage
  pub title : Option (Option String)

abbrev or_keep {ℓ} : {A : Type ℓ} → Option A → A → A
or_keep none a = a
or_keep (some b) a = b

-- `setattr` for each field that is set, and `version += 1`
unfoldable pub patched : OpportunityUpdate → Opportunity → Opportunity
patched body o = record o {
  assigned_to = or_keep body.assigned_to o.assigned_to;
  stage = or_keep body.stage o.stage;
  title = or_keep body.title o.title;
  version = o.version + 1;
}

abbrev pub stale_version : AppError
stale_version =
    conflict_error "Opportunity version is stale or If-Match is missing." ErrorCode.stale_version

-- `update_opportunity`; `if_match` is the header without its quotes, as the number whose text it is.
unfoldable pub update_opportunity : ℕ → ℕ → OpportunityUpdate → Option ℕ → Tx Db (Unit {0})
unfolding get_opportunity
update_opportunity org_id id body if_match = do
  o ← get_opportunity org_id id
  raise_if (not (opt_is if_match o.version)) stale_version
  modify (save o.id (patched body))
  commit

unfoldable archive_opportunity : ℕ → ℕ → Tx Db (Unit {0})
unfolding get_opportunity
archive_opportunity org_id id = do
  o ← get_opportunity org_id id
  modify (save o.id (λ x. record x { stage = archived; version = x.version + 1 }))
  commit

-- `DecisionRequest`
pub record DecisionRequest : Type 0 where
  pub decision : DecisionKind
  pub rationale : String

abbrev pub decides : ℕ → ℕ → String → AuditLog → Bool
decides org_id id key a =
    opt_is a.org_id org_id
    && (str_eq a.action "opportunity.decide"
        && (opt_is a.target_id id && str_eq a.idempotency_key key))

-- `select(func.count(Evidence.id)).join(Claim).where(Claim.opportunity_id == id)`
abbrev cites : ℕ → Db → Evidence → Bool
cites id db e =
    any_where (λ (c : Claim). (c.id == e.claim_id) && (c.opportunity_id == id)) db.claims

abbrev pub evidence_count : ℕ → Db → ℕ
evidence_count id db = count_where (cites id db) db.evidence

abbrev pub set_decision : DecisionRequest → Option ℕ → ℕ → Opportunity → Opportunity
set_decision body user_id now o = record o {
  decision = some body.decision;
  decision_rationale = some body.rationale;
  decision_by = user_id;
  decided_at = some now;
  stage = decided;
  version = o.version + 1;
}

abbrev for_opportunity : ℕ → Application → Bool
for_opportunity id a = opt_is a.opportunity_id id

abbrev mark_decided : Option Application → List Application → List Application
mark_decided none applications = applications
mark_decided (some a) applications =
    update_where (λ x. x.id == a.id) (λ x. record x { status = ApplicationStatus.decided })
      applications

-- The audit entry of a decision.
abbrev pub decision_entry : Principal → ℕ → DecisionRequest → String → AuditLog
decision_entry principal id body key = record {
  org_id = some principal.org_id;
  actor_user_id = principal.user_id;
  actor_kind = principal.kind;
  action = "opportunity.decide";
  target_type = some "opportunity";
  target_id = some id;
  decision = body.decision;
  idempotency_key = key;
}

-- What a decision writes: the opportunity, the audit log and the first application.
unfoldable pub record_decision : Principal → Opportunity → DecisionRequest → String → ℕ → Db → Db
record_decision principal o body key now db = record db {
  opportunities =
      update_where (has_id o.id) (set_decision body principal.user_id now) db.opportunities;
  audit_log = db.audit_log ++ decision_entry principal o.id body key ∷ [];
  applications = mark_decided (find_where (for_opportunity o.id) db.applications) db.applications;
}

abbrev pub key_required : AppError
key_required = app_error ErrorCode.validation_error "Idempotency-Key header is required." 400

abbrev evidence_required : AppError
evidence_required =
    app_error ErrorCode.cold_start_insufficient_evidence
      "A pass decision must cite evidence rather than missing data." 422

-- `decide_opportunity` from where it has loaded the opportunity. A repeated request changes
-- nothing.
unfoldable decide_loaded : Principal → Opportunity → DecisionRequest → String → ℕ → Tx Db (Unit {0})
decide_loaded principal o body key now = do
  raise_if (is_archived o.stage)
      (app_error ErrorCode.unprocessable "Archived opportunities cannot be decided." 422)
  audited ← query (λ db. any_where (decides principal.org_id o.id key) db.audit_log)
  count ← query (evidence_count o.id)
  if audited && is_some o.decision then pure tt else do
    raise_if (is_pass body.decision && count == 0) evidence_required
    modify (record_decision principal o body key now)
    commit

unfoldable pub decide_opportunity :
    Principal → ℕ → DecisionRequest → Option String → ℕ → Tx Db (Unit {0})
unfolding get_opportunity decide_loaded
decide_opportunity principal id body none now = raise key_required
decide_opportunity principal id body (some key) now = do
  raise_if (str_eq key "") key_required
  o ← get_opportunity principal.org_id id
  decide_loaded principal o body key now

-- `_sla`: `remaining` is the deadline less the clock, split into the part above and below zero.
pub record SlaOut : Type 0 where
  pub deadline_at : ℕ
  pub at_risk : Bool
  pub breached : Bool

unfoldable sla : Opportunity → ℕ → SlaOut
sla o now = record {
  deadline_at = o.sla_deadline_at;
  at_risk =
      is_none o.decided_at && (ltb now o.sla_deadline_at && ltb o.sla_deadline_at (now + 4 * 3600));
  breached = is_none o.decided_at && leb o.sla_deadline_at now;
}
