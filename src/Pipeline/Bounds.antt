-- ===== src/Pipeline/Bounds.antt =====
-- The ranges of the axes that a screening scores (`_score_axes` of backend/app/services/pipeline.py).
use dolphin_vc.Records.{Claim, FounderScore}
use dolphin_vc.Pipeline.Axes.{best, axis_drafts, AxisDraft}
use dolphin_vc.Base.{ℕ, ◌≤◌, Bool, true, false, List, [], ◌∷◌, arith, All, ltb, if◌then◌else◌}
use dolphin_vc.Types.{AxisKind}

-- A founder score as its scale has it, 300 to 900, with a confidence of at most 1.
abbrev pub OnScale : FounderScore → Type 0
OnScale f = (300 ≤ f.score) × (f.score ≤ 900) × (f.confidence ≤ 1000)

if-OnScale : (b : Bool) (f g : FounderScore) → OnScale f → OnScale g → OnScale (if b then g else f)
if-OnScale true f g hf hg = hg
if-OnScale false f g hf hg = hf

pub best-OnScale :
    (f : FounderScore) (rest : List FounderScore)
    → OnScale f
    → All OnScale rest
    → OnScale (best f rest)
unfolding best
best-OnScale f [] h hs = h
best-OnScale f (g ∷ rest) h hs =
    best-OnScale (if ltb f.score g.score then g else f) rest
      (if-OnScale (ltb f.score g.score) f g h hs.0) hs.1

-- A score between its bounds, and a confidence of at most `most`.
abbrev Within : ℕ → ℕ → ℕ → AxisDraft → Type 0
Within low high most d = (low ≤ d.score) × (d.score ≤ high) × (d.confidence ≤ most)

-- The range of each axis.
abbrev pub InRange : AxisDraft → Type 0
InRange d = elim d.axis [
  | AxisKind.founder ↦ Within 3500 9500 1000 d
  | AxisKind.market ↦ Within 4800 8000 750 d
  | AxisKind.idea_vs_market ↦ Within 5000 8000 750 d
]

-- If every founder of the company has a score from 300 to 900 and a confidence of at most 1, the
-- founder axis is from 35 to 95; and whatever the claims are, the market axis is from 48 to 80, the
-- idea axis from 50 to 80, and both are held with a confidence of at most 0.75. So no axis of a
-- screening is ever below the 25 at which a company is passed on, and the columns hold them.
pub axis_drafts-InRange :
    (founders : List FounderScore) (claims : List Claim)
    → All OnScale founders
    → All InRange (axis_drafts founders claims)
unfolding axis_drafts
axis_drafts-InRange [] claims h = (
  (omega arith, omega arith, omega arith),
  ((omega arith, omega arith, omega arith), ((omega arith, omega arith, omega arith), tt)),
)
axis_drafts-InRange (f ∷ rest) claims h =
    let (low, high, sure) = best-OnScale f rest h.0 h.1 in
    (
      (omega arith, omega arith, sure),
      ((omega arith, omega arith, omega arith), ((omega arith, omega arith, omega arith), tt)),
    )
