-- ===== src/Tests/Theses.antt =====
-- Theses at work: the default moves from one thesis to another.
use dolphin_vc.Base.{some, true, false, none, [], ◌∷◌, arith, count_where}
use dolphin_vc.Records.{empty_db, Db}
use dolphin_vc.Theses.Commands.{ThesisUpdate, ThesisCreate, new_thesis}
use dolphin_vc.Theses.Ordered.{IsOrdered}
use dolphin_vc.Theses.Default.{promotion, after_request, after_request-IsOrdered}

abbrev body : ThesisCreate
body = record {
  name = "Seed";
  is_default = true;
  sectors = "ai" ∷ [];
  anti_sectors = [];
  stages = "seed" ∷ [];
  geos = [];
  check_size_min = none;
  check_size_max = none;
  currency = "USD";
  ownership_target_pct = none;
  risk_appetite = 50;
  weights = ("founder", 45) ∷ ("market", 30) ∷ ("idea_vs_market", 25) ∷ [];
  must_haves = [];
  deal_breakers = [];
  notes = none;
}

abbrev db : Db
db = record empty_db {
  theses =
      new_thesis body 7 1
      ∷ new_thesis (record body { is_default = false }) 7 2
      ∷ new_thesis body 8 3
      ∷ [];
}

db-IsOrdered : IsOrdered db.theses
unfolding count_where
db-IsOrdered = record { keyed = λ id. ground arith; single = λ org. ground arith }

after_request-IsOrdered_example : IsOrdered (after_request 7 (promotion 2) db).theses
after_request-IsOrdered_example = after_request-IsOrdered 7 (promotion 2) db tt db-IsOrdered

abbrev swapped : ThesisUpdate
swapped = record {
  name = none;
  sectors = none;
  anti_sectors = none;
  stages = none;
  geos = none;
  check_size_min = some (some 9);
  check_size_max = some (some 5);
  currency = none;
  ownership_target_pct = none;
  risk_appetite = none;
  weights = none;
  must_haves = none;
  deal_breakers = none;
  notes = none;
}

abbrev wide : ThesisCreate
wide = record body { check_size_min = some 9; check_size_max = some 5 }
