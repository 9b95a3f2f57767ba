-- ===== src/Tests/Scoring.antt =====
-- Scoring at work.
use native.Mathlib.Nat.{mul-div-le, lt-mul-div-succ}
use dolphin_vc.Base.{◌/◌, ℕ, some, [], ◌∷◌, arith}
use dolphin_vc.Scoring.ThesisFit.{FitInput}
use dolphin_vc.Scoring.Gates.{IsRounding}

abbrev company : FitInput
company = record {
  company_sectors = "ai" ∷ [];
  company_stage = some "seed";
  company_country = some "DE";
  thesis_sectors = "ai" ∷ "bio" ∷ [];
  anti_sectors = "defense" ∷ [];
  stages = "seed" ∷ [];
  geos = "US" ∷ "remote" ∷ [];
  must_haves = "technical founder" ∷ [];
  company_text = "a technical team";
}

abbrev floor : ℕ → ℕ → ℕ
floor n d = n / d

floor-IsRounding : IsRounding floor
floor-IsRounding n d h = (grind (arith, mul-div-le n d), grind (arith, lt-mul-div-succ n {b = d} h))
