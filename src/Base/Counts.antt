-- ===== src/Base/Counts.antt =====
-- Laws of `count_where` on tables (Base/Rows).
use Prim.Native.Nat.{ℕ, ◌<◌, ℕ, ◌+◌, ◌≤◌}
use mathlib.Core.Path.{◌≡◌, refl}
use mathlib.Core.Bool.{Bool, true, false, ◌&&◌}
use mathlib.Core.Option.{none, some}
use mathlib.Core.List.{List, [], ◌∷◌, ◌++◌}
use native.Mathlib.Omega.{arith}
use dolphin_vc.Base.Tests.{◌==◌}
use dolphin_vc.Base.Rows.{max_where, bit, change, find_where, update_where, count_where}

module _ {ℓ} {A : Type ℓ} where
  count_where-append :
      (p : A → Bool) (l r : List A) → count_where p (l ++ r) ≡ count_where p l + count_where p r
  unfolding count_where
  count_where-append p [] r = omega arith
  count_where-append p (x ∷ xs) r = omega (arith, count_where-append p xs r)

  pub count_where-insert :
      (p : A → Bool) (l : List A) (x : A)
      → count_where p (l ++ x ∷ []) ≡ count_where p l + bit (p x)
  unfolding count_where
  count_where-insert p l x = rw count_where-append (omega arith)

  -- An update that turns no row into a selected one selects no more rows.
  pub count_where-update_where-le :
      (p q : A → Bool) (g : A → A) (l : List A)
      → ((x : A) → bit (p (change q g x)) ≤ bit (p x))
      → count_where p (update_where q g l) ≤ count_where p l
  unfolding count_where update_where
  count_where-update_where-le p q g [] h = omega arith
  count_where-update_where-le p q g (x ∷ xs) h =
      omega (arith, h x, count_where-update_where-le p q g xs h)

  -- An update that the test does not see leaves as many rows selected.
  pub count_where-update_where-eq :
      (p q : A → Bool) (g : A → A) (l : List A)
      → ((x : A) → p (change q g x) ≡ p x)
      → count_where p (update_where q g l) ≡ count_where p l
  unfolding count_where update_where
  count_where-update_where-eq p q g [] h = refl
  count_where-update_where-eq p q g (x ∷ xs) h =
      ground (arith, h x, count_where-update_where-eq p q g xs h)

  -- An update that deselects every row it could select leaves none selected.
  pub count_where-update_where_none :
      (p q : A → Bool) (g : A → A) (l : List A)
      → ((x : A) → p (change q g x) ≡ false)
      → count_where p (update_where q g l) ≡ 0
  unfolding count_where update_where
  count_where-update_where_none p q g [] h = refl
  count_where-update_where_none p q g (x ∷ xs) h =
      ground (arith, h x, count_where-update_where_none p q g xs h)

  pub find_where-none→count_where :
      (p : A → Bool) (l : List A) → find_where p l ≡ none → count_where p l ≡ 0
  unfolding count_where find_where
  find_where-none→count_where p [] h = refl
  find_where-none→count_where p (x ∷ xs) h = ground (arith, find_where-none→count_where p xs)

  pub find_where-some→count_where :
      (p : A → Bool) (l : List A) (a : A) → find_where p l ≡ some a → 1 ≤ count_where p l
  unfolding count_where find_where
  find_where-some→count_where p [] a h = ground arith
  find_where-some→count_where p (x ∷ xs) a h = ground (arith, find_where-some→count_where p xs a)

  count_where-update_where-ge :
      (p q : A → Bool) (g : A → A) (l : List A)
      → ((x : A) → bit (p x) ≤ bit (p (change q g x)))
      → count_where p l ≤ count_where p (update_where q g l)
  unfolding count_where update_where
  count_where-update_where-ge p q g [] h = omega arith
  count_where-update_where-ge p q g (x ∷ xs) h =
      omega (arith, h x, count_where-update_where-ge p q g xs h)

  -- An update that deselects a row that is there, and selects none, leaves fewer selected.
  pub count_where-update_where-lt :
      (p q s : A → Bool) (g : A → A) (l : List A) (a : A)
      → ((x : A) → bit (p (change q g x)) ≤ bit (p x))
      → find_where s l ≡ some a
      → p a ≡ true
      → p (change q g a) ≡ false
      → count_where p (update_where q g l) + 1 ≤ count_where p l
  unfolding count_where update_where find_where
  count_where-update_where-lt p q s g [] a h e pa pc = ground arith
  count_where-update_where-lt p q s g (x ∷ xs) a h e pa pc = ground (
    arith,
    h x,
    count_where-update_where-le p q g xs h,
    count_where-update_where-lt p q s g xs a h,
  )

  pub count_where-zero→find_where :
      (p : A → Bool) (l : List A) → count_where p l ≡ 0 → find_where p l ≡ none
  unfolding count_where find_where
  count_where-zero→find_where p [] h = refl
  count_where-zero→find_where p (x ∷ xs) h = ground (arith, count_where-zero→find_where p xs)

  -- An update that deselects no row, and selects one that is there, leaves more selected.
  pub count_where-update_where-gt :
      (p q s : A → Bool) (g : A → A) (l : List A) (a : A)
      → ((x : A) → bit (p x) ≤ bit (p (change q g x)))
      → find_where s l ≡ some a
      → p a ≡ false
      → p (change q g a) ≡ true
      → count_where p l + 1 ≤ count_where p (update_where q g l)
  unfolding count_where update_where find_where
  count_where-update_where-gt p q s g [] a h e pa pc = ground arith
  count_where-update_where-gt p q s g (x ∷ xs) a h e pa pc = ground (
    arith,
    h x,
    count_where-update_where-ge p q g xs h,
    count_where-update_where-gt p q s g xs a h,
  )

  -- An update selects at most the rows that it changes in addition.
  pub count_where-update_where-add :
      (p q r : A → Bool) (g : A → A) (l : List A)
      → ((x : A) → bit (p (change q g x)) ≤ bit (p x) + bit (r x))
      → count_where p (update_where q g l) ≤ count_where p l + count_where r l
  unfolding count_where update_where
  count_where-update_where-add p q r g [] h = omega arith
  count_where-update_where-add p q r g (x ∷ xs) h =
      omega (arith, h x, count_where-update_where-add p q r g xs h)

  -- Of two tests that no row passes both, and that each imply a third, the third counts both.
  pub count_where-disjoint :
      (p q r : A → Bool) (l : List A)
      → ((x : A) → bit (p x) + bit (q x) ≤ bit (r x))
      → count_where p l + count_where q l ≤ count_where r l
  unfolding count_where
  count_where-disjoint p q r [] h = omega arith
  count_where-disjoint p q r (x ∷ xs) h = omega (arith, h x, count_where-disjoint p q r xs h)

  -- No selected row has a number above the greatest.
  max_where-count_where :
      (column : A → ℕ) (p : A → Bool) (l : List A) (n : ℕ)
      → max_where column p l < n
      → count_where (λ x. p x && (column x == n)) l ≡ 0
  unfolding max_where count_where
  max_where-count_where column p [] n h = refl
  max_where-count_where column p (x ∷ xs) n h = ground (arith, max_where-count_where column p xs n)

  -- The number above the greatest is a new one for the row that is put in.
  pub count_where-next :
      (column : A → ℕ) (p : A → Bool) (l : List A) (x : A) (n : ℕ)
      → (p x ≡ true → column x ≡ max_where column p l + 1)
      → count_where (λ y. p y && (column y == n)) l ≤ 1
      → count_where (λ y. p y && (column y == n)) (l ++ x ∷ []) ≤ 1
  count_where-next column p l x n next h =
      rw count_where-insert (ground (arith, next, max_where-count_where column p l n))

  -- A row that is found is counted.
  pub found→count_where :
      (q s : A → Bool) (l : List A) (a : A)
      → find_where s l ≡ some a
      → q a ≡ true
      → 1 ≤ count_where q l
  unfolding count_where find_where
  found→count_where q s [] a found hit = ground arith
  found→count_where q s (x ∷ xs) a found hit = ground (arith, found→count_where q s xs a)

  count_where-update_where-zero :
      (p q : A → Bool) (g : A → A) (l : List A)
      → count_where q l ≡ 0
      → count_where p (update_where q g l) ≡ count_where p l
  unfolding count_where update_where
  count_where-update_where-zero p q g [] h = refl
  count_where-update_where-zero p q g (x ∷ xs) h =
      ground (arith, count_where-update_where-zero p q g xs)

  -- An update of the one row that its test selects counts that row anew, and the others as before.
  pub count_where-update_where-one :
      (p q s : A → Bool) (g : A → A) (l : List A) (a : A)
      → count_where q l ≤ 1
      → find_where s l ≡ some a
      → q a ≡ true
      → count_where p (update_where q g l) + bit (p a) ≡ count_where p l + bit (p (g a))
  unfolding count_where update_where find_where
  count_where-update_where-one p q s g [] a one found hit = ground arith
  count_where-update_where-one p q s g (x ∷ xs) a one found hit = ground (
    arith,
    count_where-update_where-zero p q g xs,
    count_where-update_where-one p q s g xs a,
    found→count_where q s xs a,
  )

  -- Where a test selects one row at most, two searches that find a selected row find the same.
  pub find_where_unique :
      (q s t : A → Bool) (l : List A) (a b : A)
      → count_where q l ≤ 1
      → find_where s l ≡ some a
      → q a ≡ true
      → find_where t l ≡ some b
      → q b ≡ true
      → a ≡ b
  unfolding count_where find_where
  find_where_unique q s t [] a b one fa qa fb qb = ground arith
  find_where_unique q s t (x ∷ xs) a b one fa qa fb qb = ground (
    arith,
    found→count_where q s xs a,
    found→count_where q t xs b,
    find_where_unique q s t xs a b,
  )

  pub update_where-zero :
      (q : A → Bool) (g : A → A) (l : List A) → count_where q l ≡ 0 → update_where q g l ≡ l
  unfolding count_where update_where
  update_where-zero q g [] h = refl
  update_where-zero q g (x ∷ xs) h = ground (arith, update_where-zero q g xs)
