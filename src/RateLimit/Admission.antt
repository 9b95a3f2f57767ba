-- ===== src/RateLimit/Admission.antt =====
-- Runs of requests through one bucket of the limiter (backend/app/middleware.py).
use dolphin_vc.Base.{
  ℕ, ◌+◌, ◌≤◌, ◌≡◌, refl, ◌∙◌, sym, inl, inr, false, List, [], ◌∷◌, ◌++◌, arith, leb, if◌then◌else◌,
  length, All, All-append, count_where, count_where-insert, Bool-cases, ◌↔◌,
}
use dolphin_vc.RateLimit.Limiter.{Rule, hit, evict, is_admitted}
use dolphin_vc.RateLimit.Window.{
  recent, recent_count, IsSorted, evict-recent_count, recent_count-le-length, evict-recent_all,
  evict-IsSorted, evict-All, All-weaken, append-IsSorted,
}

-- A bucket, and the instants at which requests were admitted to it.
abbrev Run : Type 0
Run = List ℕ × List ℕ

abbrev logged : Rule → ℕ → Run → Run
logged r now (bucket, log) =
    let (verdict, left) = hit r now bucket in
    (left, if is_admitted verdict then log ++ now ∷ [] else log)

-- Requests at the given instants, one after the other.
unfoldable pub after_hits : Rule → List ℕ → Run → Run
after_hits r [] run = run
after_hits r (now ∷ times) run = after_hits r times (logged r now run)

record IsWindow (r : Rule) (last : ℕ) (run : Run) : Type 0 where
  sorted : IsSorted r.window run.0
  past : All (λ t. t ≤ last) run.0
  bounded : length run.0 ≤ r.limit
  same :
      (later : ℕ)
      → last ≤ later
      → recent_count r.window later run.1 ≡ recent_count r.window later run.0

length-insert : (l : List ℕ) (x : ℕ) → length (l ++ x ∷ []) ≡ length l + 1
length-insert [] x = refl
length-insert (y ∷ l) x = omega (arith, length-insert l x)

evict-length : (w now : ℕ) (l : List ℕ) → length (evict w now l) ≤ length l
unfolding evict
evict-length w now [] = omega arith
evict-length w now (t ∷ l) = ground (arith, evict-length w now l)

module _ (r : Rule) (last now : ℕ) (bucket log : List ℕ) (le : last ≤ now)
    (inv : IsWindow r last (bucket, log)) where
  hit-IsWindow : IsWindow r now (logged r now (bucket, log))
  unfolding hit
  hit-IsWindow =
      let sorted = evict-IsSorted r.window now bucket inv.sorted in
      let past =
        evict-All r.window now now bucket (All-weaken r.window last now bucket le inv.past) in
      elim (Bool-cases (leb r.limit (length (evict r.window now bucket)))) [
        | inl full ↦ rw full (record {
          sorted = sorted;
          past = past;
          bounded = omega (arith, evict-length r.window now bucket, inv.bounded);
          same = λ later h.
              inv.same later (omega arith) ∙ sym (evict-recent_count r.window now later bucket h);
        })
        | inr free ↦ rw free (record {
          sorted = append-IsSorted r.window now (evict r.window now bucket) sorted past;
          past = All-append (λ t. t ≤ now) (evict r.window now bucket) now past (omega arith);
          bounded = ground (arith, length-insert (evict r.window now bucket) now);
          same = λ later h. omega (
            arith,
            inv.same later (omega arith),
            evict-recent_count r.window now later bucket h,
            count_where-insert (recent r.window later) log now,
            count_where-insert (recent r.window later) (evict r.window now bucket) now,
          );
        })
      ]

  refused-full : is_admitted (hit r now bucket).0 ≡ false ↔ r.limit ≤ recent_count r.window now log
  unfolding hit
  refused-full =
      let eq =
        inv.same now le
        ∙ sym (evict-recent_count r.window now now bucket (omega arith))
        ∙ evict-recent_all r.window now bucket inv.sorted in
      elim (Bool-cases (leb r.limit (length (evict r.window now bucket)))) [
        | inl full ↦ rw full (λ _. ground (arith, eq), λ _. refl)
        | inr free ↦ rw free (λ h. absurd (ground arith), λ h. absurd (ground (arith, eq)))
      ]

-- The instants are in order, and not before the one given.
abbrev pub InOrder : ℕ → List ℕ → Type 0
InOrder last [] = Unit
InOrder last (now ∷ times) = (last ≤ now) × InOrder now times

abbrev final : ℕ → List ℕ → ℕ
final last [] = last
final last (now ∷ times) = final now times

after_hits-IsWindow :
    (r : Rule) (last : ℕ) (times : List ℕ) (bucket log : List ℕ)
    → InOrder last times
    → IsWindow r last (bucket, log)
    → IsWindow r (final last times) (after_hits r times (bucket, log))
unfolding after_hits
after_hits-IsWindow r last [] bucket log order inv = inv
after_hits-IsWindow r last (now ∷ times) bucket log order inv =
    after_hits-IsWindow r now times (logged r now (bucket, log)).0 (logged r now (bucket, log)).1
      order.1 (hit-IsWindow r last now bucket log order.0 inv)

start-IsWindow : (r : Rule) → IsWindow r 0 ([], [])
unfolding count_where
start-IsWindow r = record { sorted = tt; past = tt; bounded = omega arith; same = λ later h. refl }

module _ (r : Rule) (times : List ℕ) (order : InOrder 0 times) where
  -- Of requests that come in order on an empty bucket, at most `limit` are admitted in any window
  -- that ends when the last came or later.
  pub window_bound :
      (later : ℕ)
      → final 0 times ≤ later
      → recent_count r.window later (after_hits r times ([], [])).1 ≤ r.limit
  window_bound later h =
      let inv = after_hits-IsWindow r 0 times [] [] order (start-IsWindow r) in
      omega (
        arith,
        inv.same later h,
        inv.bounded,
        recent_count-le-length r.window later (after_hits r times ([], [])).0,
      )

  -- After requests that came in order on an empty bucket, one that comes when the last came or later
  -- is refused exactly if `limit` or more requests were admitted in the window that ends with it.
  pub refused_iff_full :
      (now : ℕ)
      → final 0 times ≤ now
      → let (bucket, log) = after_hits r times ([], []) in
        is_admitted (hit r now bucket).0 ≡ false ↔ r.limit ≤ recent_count r.window now log
  refused_iff_full now h =
      refused-full r (final 0 times) now (after_hits r times ([], [])).0
        (after_hits r times ([], [])).1 h
        (after_hits-IsWindow r 0 times [] [] order (start-IsWindow r))
