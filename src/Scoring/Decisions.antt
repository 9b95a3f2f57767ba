-- ===== src/Scoring/Decisions.antt =====
-- When the automated recommendation is what (backend/app/services/score/recommendation.py).
use dolphin_vc.Base.{ℕ, ◌<◌, ◌≡◌, ◌↔◌, ◌⊎◌, String, Bool, false, Option, List, [], ◌∷◌, arith}
use dolphin_vc.Types.{pass}
use dolphin_vc.Scoring.Recommendation.{Floats, AxisValue, TrustSummary, recommend}

module _ (floats : Floats) (a b c : AxisValue) (fit : ℕ) (trust : TrustSummary) (cold : Bool)
    (gate : Option String) where
  abbrev axes : List AxisValue
  axes = a ∷ b ∷ c ∷ []

  -- Three axes lead to `pass` exactly when no decision-critical claim is contradicted and the
  -- thesis fit is zero or some score is below 25: thin evidence and a cold start never do.
  recommend-pass_iff : ((recommend floats axes fit trust cold gate).decision ≡ pass) ↔ (
      (trust.contradicted_critical ≡ false)
      × ((fit ≡ 0) ⊎ (a.score < 2500) ⊎ (b.score < 2500) ⊎ (c.score < 2500)))
  unfolding recommend
  recommend-pass_iff = (λ h. ground arith, λ h. ground arith)
