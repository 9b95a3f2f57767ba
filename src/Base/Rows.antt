-- ===== src/Base/Rows.antt =====
-- Tables as lists of rows: the queries and updates that the services make, and their laws.
-- A query that wants one row takes the first in the table's order; an insert appends.
use Prim.Native.Nat.{ℕ, suc, max, ◌+◌}
use mathlib.Core.Path.{◌≡◌, refl}
use mathlib.Core.Logic.{inl, inr}
use mathlib.Core.Bool.{Bool, true, false}
use mathlib.Core.Option
use mathlib.Core.Option.{Option, none, some}
use mathlib.Core.List.{List, [], ◌∷◌, ◌++◌}
use native.Mathlib.Omega.{arith}
use dolphin_vc.Base.Tests.{Bool-cases, if◌then◌else◌}

-- 1 for a row that a query selects, and 0 for another.
abbrev pub bit : Bool → ℕ
bit true = 1
bit false = 0

module _ {ℓ} {A : Type ℓ} where
  abbrev pub length : List A → ℕ
  length [] = 0
  length (x ∷ xs) = suc (length xs)

  -- `select(...).where(p)`, the first row
  unfoldable pub find_where : (A → Bool) → List A → Option A
  find_where p [] = none
  find_where p (x ∷ xs) = let rest = find_where p xs in if p x then some x else rest

  -- `select(...).where(p)`, all rows
  unfoldable pub select_where : (A → Bool) → List A → List A
  select_where p [] = []
  select_where p (x ∷ xs) = let rest = select_where p xs in if p x then x ∷ rest else rest

  -- `update(...).where(p).values(...)`, and assignments to the attributes of a loaded row
  abbrev pub change : (A → Bool) → (A → A) → A → A
  change p g x = if p x then g x else x

  unfoldable pub update_where : (A → Bool) → (A → A) → List A → List A
  update_where p g [] = []
  update_where p g (x ∷ xs) = change p g x ∷ update_where p g xs

  -- `select(func.count()).where(p)`
  unfoldable pub count_where : (A → Bool) → List A → ℕ
  count_where p [] = 0
  count_where p (x ∷ xs) = bit (p x) + count_where p xs

  -- `select(func.max(column)).where(p)`, and 0 where no row is selected
  unfoldable pub max_where : (A → ℕ) → (A → Bool) → List A → ℕ
  max_where column p [] = 0
  max_where column p (x ∷ xs) =
      let rest = max_where column p xs in if p x then max (column x) rest else rest

  unfoldable pub any_where : (A → Bool) → List A → Bool
  any_where p [] = false
  any_where p (x ∷ xs) = let rest = any_where p xs in if p x then true else rest

  -- Every row of the table satisfies the predicate.
  abbrev pub All {κ} : (A → Type κ) → List A → Type κ
  All P [] = Unit
  All P (x ∷ xs) = P x × All P xs

  pub All-append {κ} :
      (P : A → Type κ) (xs : List A) (x : A) → All P xs → P x → All P (xs ++ x ∷ [])
  All-append P [] x h hx = (hx, tt)
  All-append P (y ∷ xs) x h hx = (h.0, All-append P xs x h.1 hx)

  All-change {κ} :
      (P : A → Type κ) (q : A → Bool) (g : A → A) (x : A)
      → ((y : A) → P y → P (g y))
      → P x
      → P (change q g x)
  All-change P q g x keep h = elim (Bool-cases (q x)) [
    | inl hit ↦ rw hit (keep x h)
    | inr miss ↦ rw miss h
  ]

  pub find_where-holds : (p : A → Bool) (l : List A) (a : A) → find_where p l ≡ some a → p a ≡ true
  unfolding find_where
  find_where-holds p [] a h = ground arith
  find_where-holds p (x ∷ xs) a h = ground (arith, find_where-holds p xs a)

  pub find_where-append :
      (p : A → Bool) (l r : List A) (a : A)
      → find_where p l ≡ some a
      → find_where p (l ++ r) ≡ some a
  unfolding find_where
  find_where-append p [] r a h = ground arith
  find_where-append p (x ∷ xs) r a h = ground (arith, find_where-append p xs r a)

  -- A query whose test the update keeps finds the same row, updated.
  pub find_where-update_where :
      (p q : A → Bool) (g : A → A) (l : List A)
      → ((x : A) → p (change q g x) ≡ p x)
      → find_where p (update_where q g l) ≡ Option.map (change q g) (find_where p l)
  unfolding find_where update_where
  find_where-update_where p q g [] h = refl
  find_where-update_where p q g (x ∷ xs) h = ground (arith, h x, find_where-update_where p q g xs h)

  pub any_where-false→find_where :
      (p : A → Bool) (l : List A) → any_where p l ≡ false → find_where p l ≡ none
  unfolding any_where find_where
  any_where-false→find_where p [] h = refl
  any_where-false→find_where p (x ∷ xs) h = ground (arith, any_where-false→find_where p xs)

  -- An update under which the predicate is kept, on the rows that it changes, keeps it everywhere.
  pub All-update_where {κ} :
      (P : A → Type κ) (q : A → Bool) (g : A → A) (l : List A)
      → ((x : A) → P x → P (g x))
      → All P l
      → All P (update_where q g l)
  unfolding update_where
  All-update_where P q g [] keep h = tt
  All-update_where P q g (x ∷ xs) keep h =
      (All-change P q g x keep h.0, All-update_where P q g xs keep h.1)

  pub any_where-insert :
      (p : A → Bool) (l : List A) (x : A) → p x ≡ true → any_where p (l ++ x ∷ []) ≡ true
  unfolding any_where
  any_where-insert p [] x h = ground arith
  any_where-insert p (y ∷ ys) x h = ground (arith, any_where-insert p ys x h)

  -- Where a wider query finds nothing, a narrower one finds the row that is put in.
  pub find_where-insert :
      (p q : A → Bool) (l : List A) (x : A)
      → ((y : A) → q y ≡ true → p y ≡ true)
      → find_where p l ≡ none
      → q x ≡ true
      → find_where q (l ++ x ∷ []) ≡ some x
  unfolding find_where
  find_where-insert p q [] x h e hx = ground arith
  find_where-insert p q (y ∷ ys) x h e hx = ground (arith, h y, find_where-insert p q ys x h)
