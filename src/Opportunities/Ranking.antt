-- ===== src/Opportunities/Ranking.antt =====
-- The order in which the scores of an opportunity are read, and the first row of an axis in it
-- (backend/app/services/opportunities.py and backend/app/routers/opportunities.py).
use dolphin_vc.Base.{
  find_where-holds, sym, Option-cases, false, All, inr, inl, ◌≡◌, ◌∙◌, ap, refl, Bool, true, Option,
  none, some, List, [], ◌∷◌, ltb, if◌then◌else◌, arith, find_where, Bool-cases,
}
use dolphin_vc.Types.{AxisKind}
use dolphin_vc.Records.{OpportunityScore}
use dolphin_vc.Pipeline.Axes.{same_axis}
use dolphin_vc.Opportunities.Cards.{place_score, order_scores}

abbrev pub on : AxisKind → OpportunityScore → Bool
on axis s = same_axis s.axis axis

-- The better of a row and the best of those behind it.
abbrev better : OpportunityScore → Option OpportunityScore → OpportunityScore
better x none = x
better x (some k) = if ltb x.version k.version then k else x

-- The first of the rows of an axis that have the highest version.
unfoldable pub best_of_axis : AxisKind → List OpportunityScore → Option OpportunityScore
best_of_axis axis [] = none
best_of_axis axis (x ∷ rows) =
    if on axis x then some (better x (best_of_axis axis rows)) else best_of_axis axis rows

-- An order of the rows that puts, of two of one axis, the higher version first.
pub record IsOrder (precedes : OpportunityScore → OpportunityScore → Bool) (axis : AxisKind)
    : Type 0 where
  pub asymmetric : (x a : OpportunityScore) → precedes x a ≡ true → precedes a x ≡ false
  pub transitive :
      (y x a : OpportunityScore)
      → precedes y x ≡ false
      → precedes x a ≡ false
      → precedes y a ≡ false
  pub by_versions :
      (x a : OpportunityScore)
      → on axis x ≡ true
      → on axis a ≡ true
      → precedes x a ≡ ltb a.version x.version

module _ (precedes : OpportunityScore → OpportunityScore → Bool) (axis : AxisKind)
    (order : IsOrder precedes axis) where
  abbrev Behind : OpportunityScore → List OpportunityScore → Type 0
  Behind a = All (λ y. precedes y a ≡ false)

  abbrev IsOrdered : List OpportunityScore → Type 0
  IsOrdered [] = Unit
  IsOrdered (x ∷ rows) = Behind x rows × IsOrdered rows

  Behind-trans :
      (x a : OpportunityScore) (rows : List OpportunityScore)
      → precedes x a ≡ false
      → Behind x rows
      → Behind a rows
  Behind-trans x a [] h behind = tt
  Behind-trans x a (y ∷ rows) h behind =
      (order.transitive y x a behind.0 h, Behind-trans x a rows h behind.1)

  Behind-place :
      (x a : OpportunityScore) (rows : List OpportunityScore)
      → precedes a x ≡ false
      → Behind x rows
      → Behind x (place_score precedes a rows)
  Behind-place x a [] h behind = (h, tt)
  Behind-place x a (y ∷ rows) h behind = elim (Bool-cases (precedes y a)) [
    | inl first ↦ rw first (behind.0, Behind-place x a rows h behind.1)
    | inr later ↦ rw later (h, behind)
  ]

  Behind-found :
      (a k : OpportunityScore) (rows : List OpportunityScore)
      → Behind a rows
      → find_where (on axis) rows ≡ some k
      → precedes k a ≡ false
  unfolding find_where
  Behind-found a k [] behind found = ground arith
  Behind-found a k (y ∷ rows) behind found = elim (Bool-cases (on axis y)) [
    | inl hit ↦ let same : y ≡ k = ground arith in ap (λ z. precedes z a) (sym same) ∙ behind.0
    | inr miss ↦ Behind-found a k rows behind.1 (ground arith)
  ]

  place_score-IsOrdered :
      (a : OpportunityScore) (rows : List OpportunityScore)
      → IsOrdered rows
      → IsOrdered (place_score precedes a rows)
  place_score-IsOrdered a [] h = (tt, tt)
  place_score-IsOrdered a (x ∷ rows) h = elim (Bool-cases (precedes x a)) [
    | inl first ↦
        rw first
          (Behind-place x a rows (order.asymmetric x a first) h.0, place_score-IsOrdered a rows h.1)
    | inr later ↦ rw later ((later, Behind-trans x a rows later h.0), h)
  ]

  -- A row that is behind none of an axis is the best of them.
  better-Behind :
      (a : OpportunityScore) (rows : List OpportunityScore)
      → on axis a ≡ true
      → Behind a rows
      → better a (find_where (on axis) rows) ≡ a
  better-Behind a rows ours behind = elim (Option-cases (find_where (on axis) rows)) [
    | inl nothing ↦ rw nothing refl
    | inr (k, found) ↦
        let older : ltb a.version k.version ≡ false =
          sym (order.by_versions k a (find_where-holds (on axis) rows k found) ours)
          ∙ Behind-found a k rows behind found in
        rw (found, older) refl
  ]

  place_score-found :
      (a : OpportunityScore) (rows : List OpportunityScore)
      → IsOrdered rows
      → find_where (on axis) (place_score precedes a rows) ≡ (
          if on axis a
          then some (better a (find_where (on axis) rows))
          else find_where (on axis) rows)
  unfolding find_where
  place_score-found a [] h = refl
  place_score-found a (x ∷ rows) h = elim (Bool-cases (precedes x a)) [
    | inr later ↦ elim (Bool-cases (on axis a)) [
      | inl ours ↦
          rw (later, ours)
            (ap some
              (sym (better-Behind a (x ∷ rows) ours (later, Behind-trans x a rows later h.0))))
      | inr theirs ↦ rw (later, theirs) refl
    ]
    | inl first ↦ elim (Bool-cases (on axis x)) [
      | inr elsewhere ↦ rw (first, elsewhere) (place_score-found a rows h.1)
      | inl here ↦ ground (arith, first, here, order.by_versions x a here)
    ]
  ]

  order_scores-IsOrdered : (rows : List OpportunityScore) → IsOrdered (order_scores precedes rows)
  unfolding order_scores
  order_scores-IsOrdered [] = tt
  order_scores-IsOrdered (x ∷ rows) =
      place_score-IsOrdered x (order_scores precedes rows) (order_scores-IsOrdered rows)

  pub order_scores-best_of_axis :
      (rows : List OpportunityScore)
      → find_where (on axis) (order_scores precedes rows) ≡ best_of_axis axis rows
  unfolding order_scores best_of_axis find_where
  order_scores-best_of_axis [] = refl
  order_scores-best_of_axis (x ∷ rows) =
      place_score-found x (order_scores precedes rows) (order_scores-IsOrdered rows)
      ∙ ap (λ r. if on axis x then some (better x r) else r) (order_scores-best_of_axis rows)
