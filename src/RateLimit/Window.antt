-- ===== src/RateLimit/Window.antt =====
-- The sliding window of the limiter (backend/app/middleware.py): how many requests pass.
use dolphin_vc.Base.{
  ℕ, ◌+◌, ◌≤◌, ◌<◌, ◌≡◌, refl, inl, inr, Bool, List, [], ◌∷◌, ◌++◌, arith, ltb, leb, length, All,
  All-append, count_where, Bool-cases,
}
use dolphin_vc.RateLimit.Limiter.{evict}

-- A request admitted at `t` lies in the window that ends at `now`.
abbrev pub recent : ℕ → ℕ → ℕ → Bool
recent window now t = ltb now (t + window)

abbrev pub recent_count : ℕ → ℕ → List ℕ → ℕ
recent_count window now = count_where (recent window now)

module _ (window : ℕ) where
  -- What is evicted at one instant is in no later window.
  pub evict-recent_count :
      (now later : ℕ) (bucket : List ℕ)
      → now ≤ later
      → recent_count window later (evict window now bucket) ≡ recent_count window later bucket
  unfolding evict count_where
  evict-recent_count now later [] h = refl
  evict-recent_count now later (t ∷ bucket) h =
      ground (arith, evict-recent_count now later bucket h)

  pub recent_count-le-length :
      (now : ℕ) (bucket : List ℕ) → recent_count window now bucket ≤ length bucket
  unfolding count_where
  recent_count-le-length now [] = omega arith
  recent_count-le-length now (t ∷ bucket) = ground (arith, recent_count-le-length now bucket)

  -- Of a list in order, of which the first is recent, all are.
  abbrev pub IsSorted : List ℕ → Type 0
  IsSorted [] = Unit
  IsSorted (t ∷ bucket) = All (λ u. t ≤ u) bucket × IsSorted bucket

  All-recent :
      (now t : ℕ) (bucket : List ℕ)
      → now < t + window
      → All (λ u. t ≤ u) bucket
      → recent_count window now bucket ≡ length bucket
  unfolding count_where
  All-recent now t [] h a = refl
  All-recent now t (u ∷ bucket) h a = ground (arith, All-recent now t bucket h a.1)

  -- What is left after eviction is in the window, if the bucket is in order.
  pub evict-recent_all :
      (now : ℕ) (bucket : List ℕ)
      → IsSorted bucket
      → recent_count window now (evict window now bucket) ≡ length (evict window now bucket)
  unfolding evict count_where
  evict-recent_all now [] s = refl
  evict-recent_all now (t ∷ bucket) s = elim (Bool-cases (leb (t + window) now)) [
    | inl old ↦ rw old (evict-recent_all now bucket s.1)
    | inr fresh ↦ rw fresh (ground (arith, All-recent now t bucket (ground arith) s.0))
  ]

  pub evict-IsSorted :
      (now : ℕ) (bucket : List ℕ) → IsSorted bucket → IsSorted (evict window now bucket)
  unfolding evict
  evict-IsSorted now [] s = tt
  evict-IsSorted now (t ∷ bucket) s = elim (Bool-cases (leb (t + window) now)) [
    | inl old ↦ rw old (evict-IsSorted now bucket s.1)
    | inr fresh ↦ rw fresh s
  ]

  pub evict-All :
      (now top : ℕ) (bucket : List ℕ)
      → All (λ u. u ≤ top) bucket
      → All (λ u. u ≤ top) (evict window now bucket)
  unfolding evict
  evict-All now top [] a = tt
  evict-All now top (t ∷ bucket) a = elim (Bool-cases (leb (t + window) now)) [
    | inl old ↦ rw old (evict-All now top bucket a.1)
    | inr fresh ↦ rw fresh a
  ]

  pub All-weaken :
      (top top' : ℕ) (bucket : List ℕ)
      → top ≤ top'
      → All (λ u. u ≤ top) bucket
      → All (λ u. u ≤ top') bucket
  All-weaken top top' [] h a = tt
  All-weaken top top' (t ∷ bucket) h a = (omega arith, All-weaken top top' bucket h a.1)

  pub append-IsSorted :
      (now : ℕ) (bucket : List ℕ)
      → IsSorted bucket
      → All (λ u. u ≤ now) bucket
      → IsSorted (bucket ++ now ∷ [])
  append-IsSorted now [] s a = (tt, tt)
  append-IsSorted now (t ∷ bucket) s a =
      (All-append (λ u. t ≤ u) bucket now s.0 a.0, append-IsSorted now bucket s.1 a.1)
