-- ===== src/Pipeline/Verdict.antt =====
-- What a screening can recommend: `_score_axes` of backend/app/services/pipeline.py together with
-- `recommend` of backend/app/services/score/recommendation.py.
use dolphin_vc.Pipeline.Bounds.{best-OnScale, OnScale}
use dolphin_vc.Pipeline.Screen.{is_critical, verdict, axis_value}
use dolphin_vc.Errors.{ok}
use dolphin_vc.Records.{FounderScore, Claim, Opportunity, OpportunityScore, Db}
use dolphin_vc.Session.{pure, bind_returned, Conn}
use dolphin_vc.Scoring.Recommendation.{recommend, AxisValue, Floats}
use dolphin_vc.Pipeline.Axes.{
  best, founder_draft, founder_scores_of, axis_drafts, score_axes, score_row, add_score, add_scores,
  AxisDraft,
}
use dolphin_vc.Types.{pass, invest}
use dolphin_vc.Base.{
  refl, false, ◌↔◌, any_where, ◌≤◌, All, String, Option, ℕ, ◌≡◌, arith, List, [], ◌∷◌, map,
}

abbrev draft_value : AxisDraft → AxisValue
draft_value d = record { score = d.score; confidence = d.confidence; rationale = d.rationale }

add_scores-map :
    (o : ℕ) (drafts : List AxisDraft) (c c' : Conn Db) (axes : List OpportunityScore)
    → add_scores o drafts c ≡ (ok axes, c')
    → map axis_value axes ≡ map draft_value drafts
unfolding add_scores add_score score_row
add_scores-map o [] c c' axes h = ground arith
add_scores-map o (d ∷ drafts) c c' axes h =
    let row = score_row o c.working.scores d in
    let (rows, c1, ran, rest) =
      bind_returned (add_scores o drafts) (λ rows. pure (row ∷ rows)) (add_score o d c).1 c' axes
        h in
    let tail = add_scores-map o drafts (add_score o d c).1 c1 rows ran in ground arith

score_axes-map :
    (o : Opportunity) (claims : List Claim) (c c' : Conn Db) (axes : List OpportunityScore)
    → score_axes o claims c ≡ (ok axes, c')
    → map axis_value axes
      ≡ map draft_value (axis_drafts (founder_scores_of o.company_id c.working) claims)
unfolding score_axes
score_axes-map o claims c c' axes h =
    add_scores-map o.id (axis_drafts (founder_scores_of o.company_id c.working) claims) c c' axes h

founder_draft-least :
    (founders : List FounderScore) → All OnScale founders → 2500 ≤ (founder_draft founders).score
founder_draft-least [] h = omega arith
founder_draft-least (f ∷ rest) h = let low = (best-OnScale f rest h.0 h.1).0 in omega arith

module _ (floats : Floats) (founders : List FounderScore) (claims : List Claim)
    (axes : List OpportunityScore) (fit : ℕ × Option String)
    (values : map axis_value axes ≡ map draft_value (axis_drafts founders claims)) where
  pass_of :
      All OnScale founders
      → ((verdict floats claims axes fit).decision ≡ pass)
        ↔ ((any_where is_critical claims ≡ false) × (fit.0 ≡ 0))
  unfolding verdict axis_drafts recommend
  pass_of scale =
      rw values
        (let low = founder_draft-least founders scale in (λ h. ground arith, λ h. ground arith))

  invest_of :
      (verdict floats claims axes fit).decision ≡ invest
      → (any_where is_critical claims ≡ false)
        × (6500 ≤ fit.0)
        × (7000 ≤ (founder_draft founders).score)
  unfolding verdict axis_drafts recommend
  invest_of = rw values (λ h. ground arith)

founder_draft-resolved :
    (founders : List FounderScore)
    → 7000 ≤ (founder_draft founders).score
    → (f : FounderScore) × (rest : List FounderScore) × (founders ≡ f ∷ rest)
      × (650 ≤ (best f rest).score)
founder_draft-resolved [] h = absurd (omega arith)
founder_draft-resolved (f ∷ rest) h = (f, rest, refl, omega arith)

-- If a screening's axes are scored and every founder score of the company is from 300 to 900, the
-- recommendation on these axes is `pass` exactly when no decision-critical claim is contradicted and
-- the thesis fit is zero. So the rule for an axis below 25 never decides in a screening.
pub screening-pass_iff :
    (floats : Floats) (o : Opportunity) (claims : List Claim) (c c' : Conn Db)
    (axes : List OpportunityScore) (fit : ℕ × Option String)
    → score_axes o claims c ≡ (ok axes, c')
    → All OnScale (founder_scores_of o.company_id c.working)
    → ((verdict floats claims axes fit).decision ≡ pass)
      ↔ ((any_where is_critical claims ≡ false) × (fit.0 ≡ 0))
screening-pass_iff floats o claims c c' axes fit ran scale =
    pass_of floats (founder_scores_of o.company_id c.working) claims axes fit
      (score_axes-map o claims c c' axes ran) scale

-- If a screening's axes are scored and the recommendation on them is `invest`, then no
-- decision-critical claim is contradicted, the thesis fit is 65 or more, and the company has a
-- founder with a score, the highest of them 650 or more: a founder whom nobody has resolved is never
-- an investment, whatever the deck claims.
pub screening_invests :
    (floats : Floats) (o : Opportunity) (claims : List Claim) (c c' : Conn Db)
    (axes : List OpportunityScore) (fit : ℕ × Option String)
    → score_axes o claims c ≡ (ok axes, c')
    → (verdict floats claims axes fit).decision ≡ invest
    → (any_where is_critical claims ≡ false)
      × (6500 ≤ fit.0)
      × ((f : FounderScore) × (rest : List FounderScore) × (founder_scores_of o.company_id c.working
            ≡ f ∷ rest)
          × (650 ≤ (best f rest).score))
screening_invests floats o claims c c' axes fit ran invests =
    let founders = founder_scores_of o.company_id c.working in
    let (clean, fits, high) =
      invest_of floats founders claims axes fit (score_axes-map o claims c c' axes ran) invests in
    (clean, fits, founder_draft-resolved founders high)
