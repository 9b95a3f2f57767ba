-- ===== src/Opportunities/Deciding.antt =====
-- Decisions (`decide_opportunity` of backend/app/routers/opportunities.py): what one needs and what
-- it writes, and repeated requests.
use text.Mathlib.TextPositions.{eq_refl}
use dolphin_vc.Base.{
  ℕ, ◌<◌, ◌≡◌, ◌⊎◌, refl, ◌∙◌, inl, inr, String, true, false, ◌&&◌, some, arith, is_some, ==_refl,
  str_eq, any_where, Option-cases, Bool-cases, find_where-update_where, any_where-insert,
}
use dolphin_vc.Types.{pass}
use dolphin_vc.Errors.{AppError, Result, ok, err}
use dolphin_vc.Session.{request}
use dolphin_vc.Auth.Model.{Principal}
use dolphin_vc.Records.{Opportunity, Db}
use dolphin_vc.Opportunities.Commands.{
  DecisionRequest, owned, has_id, find_opportunity, is_archived, decides, set_decision,
  decision_entry, evidence_count, record_decision, decide_opportunity,
}

module _ (p : Principal) (id : ℕ) (body : DecisionRequest) (key : String) (now : ℕ) (db : Db) where
  -- The request, on a fresh session.
  abbrev pub decision : Result (Unit {0}) × Db
  decision = request (decide_opportunity p id body (some key) now) db

  -- A decision that is refused changes nothing.
  refused_decision_keeps_db : (e : AppError) → decision.0 ≡ err e → decision.1 ≡ db
  unfolding decide_opportunity
  refused_decision_keeps_db e h = ground arith

  -- What a decision that succeeds has found, and whether it is a repetition or is written.
  pub record Trace (o : Opportunity) : Type 0 where
    pub found : find_opportunity p.org_id id db ≡ some o
    pub named : str_eq key "" ≡ false
    pub open_stage : is_archived o.stage ≡ false
    pub outcome :
        ((any_where (decides p.org_id o.id key) db.audit_log ≡ true)
          × (is_some o.decision ≡ true)
          × (decision.1 ≡ db))
        ⊎ (((body.decision ≡ pass) → 0 < evidence_count o.id db)
            × (decision.1 ≡ record_decision p o body key now db))

  decision-Trace : decision.0 ≡ ok tt → (o : Opportunity) × Trace o
  unfolding decide_opportunity
  decision-Trace h = elim (Option-cases (find_opportunity p.org_id id db)) [
    | inl missing ↦ absurd (ground arith)
    | inr (o, found) ↦ (
      o,
      record {
        found = found;
        named = ground arith;
        open_stage = ground arith;
        outcome =
            elim (Bool-cases
              (any_where (decides p.org_id o.id key) db.audit_log && is_some o.decision)) [
                | inl again ↦ inl (ground arith, ground arith, ground arith)
                | inr new ↦ inr (λ q. ground arith, ground arith)
              ];
      },
    )
  ]

  -- The opportunity of the request, once it is decided.
  repeat_decision :
      (o : Opportunity)
      → find_opportunity p.org_id id db ≡ some o
      → str_eq key "" ≡ false
      → is_archived o.stage ≡ false
      → any_where (decides p.org_id o.id key) db.audit_log ≡ true
      → is_some o.decision ≡ true
      → decision ≡ (ok tt, db)
  unfolding decide_opportunity
  repeat_decision o found named open_stage audited made = ground arith

  -- A `pass` that succeeds has an idempotency key and an opportunity of the organisation that is not
  -- archived, and is a repetition of a decision with that key or is on an opportunity with evidence.
  decision_needs :
      decision.0 ≡ ok tt
      → body.decision ≡ pass
      → (o : Opportunity) × (find_opportunity p.org_id id db ≡ some o)
        × (str_eq key "" ≡ false)
        × (is_archived o.stage ≡ false)
        × ((any_where (decides p.org_id o.id key) db.audit_log ≡ true)
            ⊎ (0 < evidence_count o.id db))
  decision_needs h passing =
      let (o, t) = decision-Trace h in
      (
        o,
        t.found,
        t.named,
        t.open_stage,
        elim t.outcome [
          | inl (audited, made, same) ↦ inl audited
          | inr (cited, written) ↦ inr (cited passing)
        ],
      )

module _ (p : Principal) (id : ℕ) (key : String) (o : Opportunity) (db : Db) where
  -- After a decision is written, the opportunity has it and the audit log knows its key.
  record_decision-find :
      (body : DecisionRequest) (now : ℕ)
      → find_opportunity p.org_id id db ≡ some o
      → find_opportunity p.org_id id (record_decision p o body key now db)
        ≡ some (set_decision body p.user_id now o)
  unfolding record_decision
  record_decision-find body now found =
      find_where-update_where (owned p.org_id id) (has_id o.id) (set_decision body p.user_id now)
        db.opportunities (λ x. ground arith)
      ∙ rw found (ground (arith, ==_refl o.id))

  record_decision-audited :
      (body : DecisionRequest) (now : ℕ)
      → any_where (decides p.org_id o.id key) (record_decision p o body key now db).audit_log ≡ true
  unfolding record_decision
  record_decision-audited body now =
      any_where-insert (decides p.org_id o.id key) db.audit_log (decision_entry p o.id body key)
        (ground (arith, eq_refl key, ==_refl p.org_id, ==_refl o.id))

-- A decision is idempotent: a second request of the same principal on the same opportunity with the
-- key of one that succeeded, as the next request on the database, whatever it asks for and whenever
-- it comes, succeeds and changes nothing.
pub decide_once :
    (p : Principal) (id : ℕ) (body body' : DecisionRequest) (key : String) (now now' : ℕ) (db : Db)
    → (decision p id body key now db).0 ≡ ok tt
    → decision p id body' key now' (decision p id body key now db).1
      ≡ (ok tt, (decision p id body key now db).1)
decide_once p id body body' key now now' db h =
    let (o, t) = decision-Trace p id body key now db h in
    elim t.outcome [
      | inl (audited, made, same) ↦
          rw same
            (repeat_decision p id body' key now' db o t.found t.named t.open_stage audited made)
      | inr (q, written) ↦ rw written (
          repeat_decision p id body' key now' (record_decision p o body key now db)
            (set_decision body p.user_id now o)
            (record_decision-find p id key o db body now t.found) t.named refl
            (record_decision-audited p id key o db body now) refl)
    ]
