-- ===== src/Theses/Ranges.antt =====
-- The ranges of a thesis (`validate_ranges` of backend/app/schemas/thesis.py) and its updates
-- (`update_thesis` of backend/app/routers/theses.py).
use dolphin_vc.Base.{
  ℕ, ◌<◌, ◌≡◌, refl, change, ◌∙◌, ap, true, Option, some, arith, is_some, ==_refl, find_where,
  update_where, find_where-update_where,
}
use dolphin_vc.Session.{request}
use dolphin_vc.Records.{Thesis, Db}
use dolphin_vc.Theses.Commands.{
  ThesisCreate, ThesisUpdate, exceeds, validate_ranges, owned_thesis, thesis_is, revised,
  update_thesis,
}

refused_ranges :
    (low high : ℕ) (body : ThesisCreate)
    → high < low
    → body.check_size_min ≡ some low
    → body.check_size_max ≡ some high
    → is_some (validate_ranges body) ≡ true
unfolding validate_ranges
refused_ranges low high body less a b = ground (arith, a, b)

revised-exceeds :
    (low high : ℕ) (body : ThesisUpdate) (t : Thesis)
    → high < low
    → body.check_size_min ≡ some (some low)
    → body.check_size_max ≡ some (some high)
    → exceeds (revised body t).check_size_min (revised body t).check_size_max ≡ true
unfolding revised
revised-exceeds low high body t less a b = ground (arith, a, b)

updated_theses :
    (org id : ℕ) (body : ThesisUpdate) (if_match : Option ℕ) (db : Db) (t : Thesis)
    → find_where (owned_thesis org id) db.theses ≡ some t
    → if_match ≡ some t.version
    → (request (update_thesis org id body if_match) db).1.theses
      ≡ update_where (thesis_is t.id) (revised body) db.theses
unfolding update_thesis
updated_theses org id body if_match db t found told = ground (arith, ==_refl t.version)

revised-owned :
    (org id row : ℕ) (body : ThesisUpdate) (x : Thesis)
    → owned_thesis org id (change (thesis_is row) (revised body) x) ≡ owned_thesis org id x
unfolding revised
revised-owned org id row body x = ground arith

-- A check size whose lower bound exceeds its upper one is refused when a thesis is created, but an
-- update that is told the thesis's version writes it.
revision_skips_ranges :
    (low high org id : ℕ) (creation : ThesisCreate) (body : ThesisUpdate) (db : Db) (t : Thesis)
    → high < low
    → creation.check_size_min ≡ some low
    → creation.check_size_max ≡ some high
    → body.check_size_min ≡ some (some low)
    → body.check_size_max ≡ some (some high)
    → find_where (owned_thesis org id) db.theses ≡ some t
    → (is_some (validate_ranges creation) ≡ true)
      × ((u : Thesis) × (find_where
              (owned_thesis org id)
              (request (update_thesis org id body (some t.version)) db).1.theses
            ≡ some u)
          × (exceeds u.check_size_min u.check_size_max ≡ true))
revision_skips_ranges low high org id creation body db t less c d a b found = (
  refused_ranges low high creation less c d,
  (
    revised body t,
    ap (find_where (owned_thesis org id))
          (updated_theses org id body (some t.version) db t found refl)
        ∙ find_where-update_where (owned_thesis org id) (thesis_is t.id) (revised body) db.theses
            (revised-owned org id t.id body)
        ∙ rw found (ground (arith, ==_refl t.id)),
    revised-exceeds low high body t less a b,
  ),
)
