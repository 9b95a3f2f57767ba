-- ===== src/Scoring/Gates.antt =====
-- The gates of the thesis (backend/app/services/score/thesis.py).
use native.Mathlib.Decide.{dec_le}
use native.Mathlib.Nat.{mul-le-mul_left}
use dolphin_vc.Base.{
  ◌⊎◌, inl, inr, Bool-cases, ℕ, suc, ◌+◌, ◌*◌, ◌≤◌, ◌<◌, ◌≡◌, refl, ap, String, Bool, true, false,
  ◌||◌, none, List, [], ◌∷◌, map, arith, length, is_some, count_where,
}
use dolphin_vc.Scoring.ThesisFit.{
  Coverage, FitInput, fails_anti, fails_sector, fails_stage, fails_geo, match_points, fit_score,
  covers, compute_thesis_fit,
}

-- `round` moves a quotient by less than one hundredth.
abbrev pub IsRounding : (ℕ → ℕ → ℕ) → Type 0
IsRounding round = (n d : ℕ) → 0 < d → (d * round n d < n + d) × (n < d * round n d + d)

count_where-le {ℓ} : {A : Type ℓ} (p : A → Bool) (l : List A) → count_where p l ≤ length l
unfolding count_where
count_where-le p [] = omega arith
count_where-le p (x ∷ xs) = ground (arith, count_where-le p xs)

quotient_low :
    (points low count hits r : ℕ)
    → low ≤ points
    → points * count + 2000 * hits < count * r + count
    → low ≤ r
quotient_low points low count hits r h above = elim (dec_le low r) [
  | yes p ↦ p
  | no p ↦ absurd (grind (arith, mul-le-mul_left {m = suc r} {n = points} count (omega arith)))
]

quotient_high :
    (points count hits r : ℕ)
    → points ≤ 8000
    → hits ≤ count
    → count * r < points * count + 2000 * hits + count
    → r ≤ 10000
quotient_high points count hits r k c below = elim (dec_le r 10000) [
  | yes p ↦ p
  | no p ↦ absurd (
      grind
        (arith, mul-le-mul_left {m = 10001} {n = r} count (omega arith), mul-le-mul_left count k))
]

-- A rounded weighted sum lies between its parts' bounds.
quotient_bounds :
    (points low count hits r : ℕ)
    → low ≤ points
    → points ≤ 8000
    → hits ≤ count
    → count * r < points * count + 2000 * hits + count
    → points * count + 2000 * hits < count * r + count
    → (low ≤ r) × (r ≤ 10000)
quotient_bounds points low count hits r h k c below above =
    (quotient_low points low count hits r h above, quotient_high points count hits r k c below)

module _ (round : ℕ → ℕ → ℕ) (rounding : IsRounding round) where
  fit_score_bounds :
      (points low : ℕ) (coverage : List Coverage)
      → low ≤ points
      → points ≤ 8000
      → (low ≤ fit_score round points coverage) × (fit_score round points coverage ≤ 10000)
  unfolding fit_score
  fit_score_bounds points low [] h k = omega (arith, rounding (points + 2000) 1 (omega arith))
  fit_score_bounds points low (x ∷ coverage) h k =
      let hits = count_where (λ c. c.satisfied) (x ∷ coverage) in
      let count = length (x ∷ coverage) in
      let (below, above) = rounding (points * count + 2000 * hits) count (omega arith) in
      quotient_bounds points low count hits (round (points * count + 2000 * hits) count) h k
        (count_where-le (λ c. c.satisfied) (x ∷ coverage)) below above

-- The coverage lists the rules, in order.
rules-covers :
    (casefold : String → String) (text : String) (rules : List String)
    → map (λ c. c.rule) (map (covers casefold text) rules) ≡ rules
unfolding covers
rules-covers casefold text [] = refl
rules-covers casefold text (r ∷ rules) = ap (◌∷◌ r) (rules-covers casefold text rules)

module _ (casefold : String → String) where
  -- The company fails one of the four hard gates of the thesis.
  abbrev gated_out : FitInput → Bool
  gated_out i =
      fails_anti casefold i
      || (fails_sector casefold i || (fails_stage casefold i || fails_geo casefold i))

  match_points_bounds :
      (i : FitInput)
      → gated_out i ≡ false
      → (5250 ≤ match_points casefold i) × (match_points casefold i ≤ 8000)
  unfolding match_points
  match_points_bounds i h = ground arith

  module _ (round : ℕ → ℕ → ℕ) (rounding : IsRounding round) (i : FitInput) where
    -- A company that fails a gate has the score 0, with a reason and no coverage; one that passes
    -- all four has no gate reason and a score from 52.5 to 100, one entry of coverage for each
    -- rule. So a score of 0 means a failed gate.
    compute_thesis_fit_gates :
        let result = compute_thesis_fit casefold round i in
        ((gated_out i ≡ true)
          × (result.score ≡ 0)
          × (is_some result.gate_reason ≡ true)
          × (result.must_have_coverage ≡ []))
        ⊎ ((gated_out i ≡ false)
            × (5250 ≤ result.score)
            × (result.score ≤ 10000)
            × (result.gate_reason ≡ none)
            × (map (λ c. c.rule) result.must_have_coverage ≡ i.must_haves))
    unfolding compute_thesis_fit
    compute_thesis_fit_gates = elim (Bool-cases (gated_out i)) [
      | inl h ↦ inl (h, ground arith, ground arith, ground arith)
      | inr h ↦
          let (low, high) = match_points_bounds i h in
          let (floor, top) =
            fit_score_bounds round rounding (match_points casefold i) 5250
              (map (covers casefold (casefold i.company_text)) i.must_haves) low high in
          inr (
            h,
            ground (arith, floor),
            ground (arith, top),
            ground arith,
            ground (arith, rules-covers casefold (casefold i.company_text) i.must_haves),
          )
    ]
