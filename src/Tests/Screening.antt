-- ===== src/Tests/Screening.antt =====
-- Opportunities at work: creation, an update under two versions, decisions and their repetition.
use dolphin_vc.Base.{
  ℕ, ◌+◌, ◌≡◌, refl, true, none, some, [], ◌∷◌, arith, find_where, count_where, any_where,
}
use dolphin_vc.Types.{OpportunityStage, OpportunityOrigin, DecisionKind, ClaimCategory, ClaimStatus}
use dolphin_vc.Errors.{ok, err}
use dolphin_vc.Records.{empty_db, Company, Opportunity, Claim, Evidence, Db}
use dolphin_vc.Opportunities.Commands.{
  DecisionRequest, OpportunityUpdate, stale_version, decide_opportunity, update_opportunity,
}
use dolphin_vc.Opportunities.Creation.{CreationDraw, stub_company, new_opportunity, by_name}
use dolphin_vc.Opportunities.Deciding.{decision, decide_once}
use dolphin_vc.Opportunities.Versions.{update, update_once_per_version}
use dolphin_vc.Opportunities.Liveness.{IsUnique, creation, creation-IsUnique}
use dolphin_vc.Tests.Fixtures.{analyst}

abbrev opening : ℕ → CreationDraw
opening now = record {
  now = now;
  company_id = now;
  opportunity_id = now + 1;
  decision_sla_hours = 24;
}

abbrev pub acme : Company
acme = stub_company 10 "Acme" "acme"

abbrev pub deal : Opportunity
deal = new_opportunity (opening 10) 7 acme OpportunityOrigin.manual none 10

abbrev old_deal : Opportunity
old_deal = record deal { id = 12; stage = OpportunityStage.archived; version = 3 }

abbrev claim : Claim
claim = record {
  id = 20;
  org_id = 7;
  opportunity_id = 11;
  company_id = none;
  category = ClaimCategory.traction;
  predicate = "p";
  text = "ten customers";
  value_num = none;
  value_unit = none;
  status = ClaimStatus.claimed;
  trust_score = 6000;
  verification_note = none;
  extracted_by = none;
}

abbrev cited : Evidence
cited = record {
  id = 30;
  claim_id = 20;
  document_id = none;
  source_id = 1;
  page = none;
  snippet = "ten customers";
  supports = true;
  independence_group = none;
  observed_at = none;
}

-- A live opportunity and an archived one of one company; the claim of the live one has evidence.
abbrev db : Db
db = record empty_db {
  companies = acme ∷ [];
  opportunities = deal ∷ old_deal ∷ [];
  claims = claim ∷ [];
  evidence = cited ∷ [];
}

abbrev passing : DecisionRequest
passing = record { decision = DecisionKind.pass; rationale = "too early" }

abbrev investing : DecisionRequest
investing = record { decision = DecisionKind.invest; rationale = "great" }

decided_ok : (decision analyst 11 passing "k" 50 db).0 ≡ ok tt
unfolding decide_opportunity find_where any_where count_where
decided_ok = refl

decide_once_example :
    decision analyst 11 investing "k" 60 (decision analyst 11 passing "k" 50 db).1
    ≡ (ok tt, (decision analyst 11 passing "k" 50 db).1)
decide_once_example = decide_once analyst 11 passing investing "k" 50 60 db decided_ok

abbrev retitled : OpportunityUpdate
retitled = record { assigned_to = none; stage = none; title = some (some "Acme II") }

update_ok : (update 7 11 retitled (some 1) db).0 ≡ ok tt
unfolding update_opportunity find_where
update_ok = refl

update_once_per_version_example :
    update 7 11 retitled (some 1) (update 7 11 retitled (some 1) db).1
    ≡ (err stale_version, (update 7 11 retitled (some 1) db).1)
update_once_per_version_example =
    update_once_per_version 7 11 retitled retitled (some 1) db update_ok

db-IsUnique : IsUnique db
unfolding count_where
db-IsUnique = record { at_company = λ org company. ground arith }

creation-IsUnique_example :
    IsUnique (creation (λ s. s) (opening 70) 7 OpportunityOrigin.manual none db (by_name "Beta")).1
creation-IsUnique_example =
    creation-IsUnique (λ s. s) (opening 70) 7 OpportunityOrigin.manual none db (by_name "Beta")
      db-IsUnique

abbrev revival : OpportunityUpdate
revival = record { assigned_to = none; stage = some OpportunityStage.sourced; title = none }
