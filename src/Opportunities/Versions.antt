-- ===== src/Opportunities/Versions.antt =====
-- Optimistic concurrency of `update_opportunity` (backend/app/routers/opportunities.py).
use dolphin_vc.Base.{
  ℕ, ◌≡◌, ◌∙◌, inl, inr, false, Option, some, arith, opt_is, ==_refl, change, Option-cases,
  find_where-update_where,
}
use dolphin_vc.Errors.{Result, ok, err}
use dolphin_vc.Session.{request}
use dolphin_vc.Records.{Opportunity, Db}
use dolphin_vc.Opportunities.Commands.{
  OpportunityUpdate, owned, has_id, find_opportunity, patched, save, stale_version,
  update_opportunity,
}

owned-patched :
    (org id : ℕ) (body : OpportunityUpdate) (row : ℕ) (x : Opportunity)
    → owned org id (change (has_id row) (patched body) x) ≡ owned org id x
unfolding patched
owned-patched org id body row x = ground arith

version-patched :
    (body : OpportunityUpdate) (o : Opportunity) (if_match : Option ℕ)
    → if_match ≡ some o.version
    → opt_is if_match (patched body o).version ≡ false
unfolding patched
version-patched body o if_match told = ground arith

module _ (org id : ℕ) (body : OpportunityUpdate) (if_match : Option ℕ) (db : Db) where
  abbrev pub update : Result (Unit {0}) × Db
  update = request (update_opportunity org id body if_match) db

  -- An update that succeeds was told the version that the row had, and writes the row's successor.
  update_trace :
      update.0 ≡ ok tt
      → (o : Opportunity) × (find_opportunity org id db ≡ some o)
        × (if_match ≡ some o.version)
        × (update.1 ≡ save o.id (patched body) db)
  unfolding update_opportunity
  update_trace h = elim (Option-cases (find_opportunity org id db)) [
    | inl missing ↦ absurd (ground arith)
    | inr (o, found) ↦ (o, found, ground arith, ground arith)
  ]

  update_stale :
      (o : Opportunity)
      → find_opportunity org id db ≡ some o
      → opt_is if_match o.version ≡ false
      → update ≡ (err stale_version, db)
  unfolding update_opportunity
  update_stale o found stale = ground arith

-- Of two updates that were told the same version the second is refused as stale and changes
-- nothing, if the first succeeded, whatever the two ask for.
pub update_once_per_version :
    (org id : ℕ) (body body' : OpportunityUpdate) (if_match : Option ℕ) (db : Db)
    → (update org id body if_match db).0 ≡ ok tt
    → update org id body' if_match (update org id body if_match db).1
      ≡ (err stale_version, (update org id body if_match db).1)
update_once_per_version org id body body' if_match db h =
    let (o, found, told, written) = update_trace org id body if_match db h in
    rw written (
      update_stale org id body' if_match (save o.id (patched body) db) (patched body o)
        (find_where-update_where (owned org id) (has_id o.id) (patched body) db.opportunities
            (owned-patched org id body o.id)
          ∙ rw found (ground (arith, ==_refl o.id)))
        (version-patched body o if_match told))
