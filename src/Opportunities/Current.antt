-- ===== src/Opportunities/Current.antt =====
-- The current scores of an opportunity, on its card, in its history and for the worker
-- (backend/app/services/opportunities.py, backend/app/routers/opportunities.py and
-- backend/app/services/pipeline.py).
use dolphin_vc.Opportunities.Commands.{find_opportunity}
use dolphin_vc.Errors.{ok}
use dolphin_vc.Session.{request}
use dolphin_vc.Base.{
  ◌&&◌, ◌==◌, ℕ, sym, Option-cases, false, inr, inl, ◌≡◌, ◌∙◌, ap, refl, Bool, true, none, some,
  List, [], ◌∷◌, ltb, if◌then◌else◌, is_none, arith, find_where, Bool-cases,
}
use dolphin_vc.Types.{AxisKind}
use dolphin_vc.Records.{Db, OpportunityScore}
use dolphin_vc.Pipeline.Axes.{same_axis, previous_score, latest_version, score_of}
use dolphin_vc.Pipeline.Versions.{same_axis→eq}
use dolphin_vc.Opportunities.Cards.{
  scores_of, axes_of, opportunity_scores, ScoreHistory, by_axis, by_version, order_scores, put_axis,
  Latest, fill, see, first_of_axes,
}
use dolphin_vc.Opportunities.Ranking.{on, best_of_axis, IsOrder, order_scores-best_of_axis}
use dolphin_vc.Base.{max_where, select_where}

-- An entry that the loop has filled stays.
fill_kept :
    (rows : List OpportunityScore) (latest : Latest) (axis : AxisKind) (k : OpportunityScore)
    → latest axis ≡ some k
    → fill rows latest axis ≡ some k
unfolding fill
fill_kept [] latest axis k there = there
fill_kept (s ∷ rows) latest axis k there = elim (Bool-cases (is_none (latest s.axis))) [
  | inr filled ↦ rw filled (fill_kept rows latest axis k there)
  | inl empty ↦ rw empty (
      fill_kept rows (put_axis s latest) axis k (elim (Bool-cases (same_axis s.axis axis)) [
        | inr other ↦ rw other there
        | inl same ↦ absurd (
            let at : latest s.axis ≡ some k = ap latest (same_axis→eq s.axis axis same) ∙ there in
            ground (arith, empty, at))
      ]))
]

-- The loops pick the first row of each axis.
fill_lem :
    (rows : List OpportunityScore) (latest : Latest) (axis : AxisKind)
    → latest axis ≡ none
    → fill rows latest axis ≡ find_where (on axis) rows
unfolding fill find_where
fill_lem [] latest axis empty = empty
fill_lem (s ∷ rows) latest axis empty = elim (Bool-cases (same_axis s.axis axis)) [
  | inl same ↦
      let open' : is_none (latest s.axis) ≡ true =
        ap is_none (ap latest (same_axis→eq s.axis axis same) ∙ empty) in
      rw (open', same) (fill_kept rows (put_axis s latest) axis s (rw same refl))
  | inr other ↦ elim (Bool-cases (is_none (latest s.axis))) [
    | inr filled ↦ rw (filled, other) (fill_lem rows latest axis empty)
    | inl vacant ↦ rw (vacant, other) (fill_lem rows (put_axis s latest) axis (rw other empty))
  ]
]

first_of_axes_lem :
    (rows : List OpportunityScore) (seen : AxisKind → Bool) (axis : AxisKind)
    → find_where (on axis) (first_of_axes seen rows)
      ≡ (if seen axis then none else find_where (on axis) rows)
unfolding first_of_axes find_where
first_of_axes_lem [] seen axis = ground arith
first_of_axes_lem (s ∷ rows) seen axis = elim (Bool-cases (same_axis s.axis axis)) [
  | inl same ↦
      let here : seen s.axis ≡ seen axis = ap seen (same_axis→eq s.axis axis same) in
      ground (arith, here, same, first_of_axes_lem rows seen axis)
  | inr other ↦ ground (
    arith,
    other,
    first_of_axes_lem rows seen axis,
    first_of_axes_lem rows (see s.axis seen) axis,
  )
]

by_version-IsOrder : (axis : AxisKind) → IsOrder by_version axis
by_version-IsOrder axis = record {
  asymmetric = λ x a h. ground arith;
  transitive = λ y x a h h'. ground arith;
  by_versions = λ x a hx ha. refl;
}

by_axis-IsOrder : (rank : AxisKind → ℕ) (axis : AxisKind) → IsOrder (by_axis rank) axis
by_axis-IsOrder rank axis = record {
  asymmetric = λ x a h. ground arith;
  transitive = λ y x a h h'. ground arith;
  by_versions = λ x a hx ha.
      let same : rank x.axis ≡ rank a.axis =
        ap rank (same_axis→eq x.axis axis hx ∙ sym (same_axis→eq a.axis axis ha)) in
      ground (arith, same);
}

module _ (opportunity : ℕ) (axis : AxisKind) where
  abbrev mine : List OpportunityScore → List OpportunityScore
  mine = select_where (λ s. s.opportunity_id == opportunity)

  abbrev at_version : ℕ → OpportunityScore → Bool
  at_version n s = score_of opportunity axis s && s.version == n

  best_none :
      (l : List OpportunityScore) (n : ℕ)
      → best_of_axis axis (mine l) ≡ none
      → (latest_version opportunity axis l ≡ 0) × (find_where (at_version n) l ≡ none)
  unfolding best_of_axis latest_version max_where find_where select_where
  best_none [] n e = (refl, refl)
  best_none (x ∷ xs) n e = elim (Bool-cases (x.opportunity_id == opportunity)) [
    | inr theirs ↦ ground (arith, best_none xs n)
    | inl ours ↦ elim (Bool-cases (same_axis x.axis axis)) [
      | inr other ↦ ground (arith, best_none xs n)
      | inl same ↦ absurd (ground arith)
    ]
  ]

  -- The best row has the latest version, and is the first that has it.
  best_some :
      (l : List OpportunityScore) (k : OpportunityScore)
      → best_of_axis axis (mine l) ≡ some k
      → (latest_version opportunity axis l ≡ k.version)
        × (find_where (at_version k.version) l ≡ some k)
  unfolding best_of_axis latest_version max_where find_where select_where
  best_some [] k e = absurd (ground arith)
  best_some (x ∷ xs) k e = elim (Bool-cases (x.opportunity_id == opportunity)) [
    | inr theirs ↦ ground (arith, best_some xs k)
    | inl ours ↦ elim (Bool-cases (same_axis x.axis axis)) [
      | inr other ↦ ground (arith, best_some xs k)
      | inl same ↦ elim (Option-cases (best_of_axis axis (mine xs))) [
        | inl nothing ↦ ground (arith, best_none xs x.version nothing)
        | inr (j, at) ↦ elim (Bool-cases (ltb x.version j.version)) [
          | inl later ↦ ground (arith, best_some xs j at)
          | inr first ↦ ground (arith, best_some xs j at)
        ]
      ]
    ]
  ]

  best_previous :
      (l : List OpportunityScore) → best_of_axis axis (mine l) ≡ previous_score opportunity axis l
  best_previous l = elim (Option-cases (best_of_axis axis (mine l))) [
    | inl nothing ↦ nothing ∙ sym (best_none l (latest_version opportunity axis l) nothing).1
    | inr (k, at) ↦
        let (version, found) = best_some l k at in
        at ∙ sym (ap (λ n. find_where (at_version n) l) version ∙ found)
  ]

module _ (rank : AxisKind → ℕ) (org_id opportunity : ℕ) (history : Bool) (db : Db)
    (h : ScoreHistory) where
  -- The card, the history and the worker agree on the current scores: where the history is
  -- answered, its current row of an axis, the entry of the card for that axis and the row against
  -- which the next screening computes its trend are the same row, or all are missing.
  pub opportunity_scores-axes_of :
      (request (opportunity_scores rank org_id opportunity history) db).0 ≡ ok h
      → (axis : AxisKind)
      → (find_where (on axis) h.current ≡ axes_of opportunity db axis)
        × (axes_of opportunity db axis ≡ previous_score opportunity axis db.scores)
  unfolding opportunity_scores axes_of
  opportunity_scores-axes_of e axis =
      let stored = scores_of opportunity db in
      let of_card : axes_of opportunity db axis ≡ best_of_axis axis stored =
        fill_lem (order_scores by_version stored) (λ a. none) axis refl
        ∙ order_scores-best_of_axis by_version axis (by_version-IsOrder axis) stored in
      elim (Option-cases (find_opportunity org_id opportunity db)) [
        | inl missing ↦ absurd (ground arith)
        | inr (o, found) ↦
            let listed : h.current
                ≡ first_of_axes (λ a. false) (order_scores (by_axis rank) stored) =
              ground arith in
            (
              ap (find_where (on axis)) listed
                  ∙ first_of_axes_lem (order_scores (by_axis rank) stored) (λ a. false) axis
                  ∙ order_scores-best_of_axis (by_axis rank) axis (by_axis-IsOrder rank axis) stored
                  ∙ sym of_card,
              of_card ∙ best_previous opportunity axis db.scores,
            )
      ]
