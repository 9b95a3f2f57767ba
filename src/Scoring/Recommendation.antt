-- ===== src/Scoring/Recommendation.antt =====
-- backend/app/services/score/recommendation.py. Scores and the thesis fit are whole hundredths and
-- confidences whole thousandths, which is what the columns `Numeric(5, 2)` and `Numeric(4, 3)` hold.
-- The source computes the mean and the spread in floating point, which rounds: the tests on them are
-- parameters. A single float is compared with 25, 70, 65 or 0.4 as the number it is read from.
use dolphin_vc.Base.{
  map, ℕ, String, Bool, true, ◌&&◌, ◌||◌, Option, none, some, List, [], ◌∷◌, ltb, leb, ◌==◌,
  if◌then◌else◌, min, max, str_eq,
}
use dolphin_vc.Types.{DecisionKind, invest, pass, watchlist, needs_human}

pub record AxisValue : Type 0 where
  pub score : ℕ
  pub confidence : ℕ
  pub rationale : String

pub record TrustSummary : Type 0 where
  pub contradicted_critical : Bool

pub record Recommendation : Type 0 where
  pub decision : DecisionKind
  pub rationale : String

-- The tests that are made on computed floats, of the confidences and of the highest and the lowest
-- score: `mean_confidence >= 0.55`, `mean_confidence < 0.40` and
-- `max(axis.score for axis in axes) - min(axis.score for axis in axes) > 30`.
pub record Floats : Type 0 where
  pub mean_clears : List ℕ → Bool
  pub mean_is_thin : List ℕ → Bool
  pub is_wide : ℕ → ℕ → Bool

-- `text or default`
abbrev pub text_or : String → String → String
text_or s default = if str_eq s "" then default else s

abbrev reason_or : Option String → String → String
reason_or none default = default
reason_or (some s) default = text_or s default

-- `min(axis.score for axis in axes)`, of a list that is not empty
abbrev min_score : AxisValue → List AxisValue → ℕ
min_score a [] = a.score
min_score a (b ∷ axes) = min a.score (min_score b axes)

abbrev max_score : AxisValue → List AxisValue → ℕ
max_score a [] = a.score
max_score a (b ∷ axes) = max a.score (max_score b axes)

-- `min(axes, key=lambda item: item.score)`: the first of the lowest
unfoldable weakest : AxisValue → List AxisValue → AxisValue
weakest a [] = a
weakest a (b ∷ axes) = weakest (if ltb b.score a.score then b else a) axes

abbrev confidences : List AxisValue → List ℕ
confidences = map (λ a. a.confidence)

-- `all(axis.score >= bar for axis in axes)`
abbrev all_score : ℕ → List AxisValue → Bool
all_score bar [] = true
all_score bar (a ∷ axes) = leb bar a.score && all_score bar axes

abbrev decide : DecisionKind → String → Recommendation
decide decision rationale = record { decision = decision; rationale = rationale }

-- The tests behind the gates, on three axes of which `a` is the first.
unfoldable weigh : Floats → AxisValue → List AxisValue → ℕ → Bool → Recommendation
unfolding weakest
weigh floats a axes thesis_fit cold_start =
    if ltb (min_score a axes) 2500
    then decide pass (text_or (weakest a axes).rationale "One independent axis is below 25.")
    else if all_score 7000 (a ∷ axes)
        && (leb 6500 thesis_fit && floats.mean_clears (confidences (a ∷ axes)))
    then decide invest "All three axes and thesis fit clear the investment bar."
    else if floats.is_wide (max_score a axes) (min_score a axes)
    then decide watchlist "The independent axes disagree materially."
    else if floats.mean_is_thin (confidences (a ∷ axes)) || cold_start
    then decide needs_human "Evidence is too thin for a confident automated recommendation."
    else decide watchlist "Evidence is credible but does not clear every investment threshold."

unfoldable pub recommend :
    Floats → List AxisValue → ℕ → TrustSummary → Bool → Option String → Recommendation
unfolding weigh
recommend floats (a ∷ b ∷ c ∷ []) thesis_fit trust_summary cold_start gate_reason =
    if trust_summary.contradicted_critical
    then decide needs_human "A decision-critical claim is contradicted."
    else if thesis_fit == 0
    then decide pass (reason_or gate_reason "A hard thesis gate failed.")
    else weigh floats a (b ∷ c ∷ []) thesis_fit cold_start
recommend floats axes thesis_fit trust_summary cold_start gate_reason =
    decide needs_human "One or more axes could not be scored."
