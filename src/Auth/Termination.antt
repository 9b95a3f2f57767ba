-- ===== src/Auth/Termination.antt =====
-- The loop of `signup` over slugs ends (backend/app/services/auth.py).
use dolphin_vc.Base.Text.{first_chars}
use dolphin_vc.Auth.Slugs.{has_slug, numbered, next_slug, free_slug}
use dolphin_vc.Auth.Model.{Org}
use Prim.Native.String.{◌++◌ as append}
use Prim.Native.String.append.{nil, cons}
use text.Mathlib.TextEquality.{eq_iff}
use dolphin_vc.Base.{
  count_where-disjoint, Option-cases, ◌≢◌, ℕ, ◌+◌, ◌≤◌, ◌≡◌, inl, inr, sym, ap, ◌∙◌, String, Bool,
  true, false, ◌||◌, none, some, List, [], ◌∷◌, zero, suc, arith, any_where, length, count_where,
  bit, Bool-cases,
}

count_where-length : {A : Type 0} (p : A → Bool) (l : List A) → count_where p l ≤ length l
unfolding count_where
count_where-length p [] = omega arith
count_where-length p (x ∷ l) = ground (arith, count_where-length p l)

any_where-count_where :
    {A : Type 0} (p : A → Bool) (l : List A) → any_where p l ≡ true → 1 ≤ count_where p l
unfolding any_where count_where
any_where-count_where p [] h = ground arith
any_where-count_where p (x ∷ l) h = ground (arith, any_where-count_where p l)

abbrev tail : String → String
tail String.[] = String.[]
tail (String.◌∷◌ c s) = s

append_cancel : (s t u : String) → append s t ≡ append s u → t ≡ u
append_cancel String.[] t u h = sym (nil t) ∙ h ∙ nil u
append_cancel (String.◌∷◌ c s) t u h =
    append_cancel s t u (ap tail (sym (cons c s t) ∙ h ∙ cons c s u))

next_slug-free :
    (show : ℕ → String) (base : String) (k n : ℕ) (slug s : String) (orgs : List Org)
    → next_slug show base k n slug orgs ≡ some s
    → any_where (has_slug s) orgs ≡ false
unfolding next_slug
next_slug-free show base zero n slug s orgs h = absurd (ground arith)
next_slug-free show base (suc k) n slug s orgs h =
    elim (Bool-cases (any_where (has_slug slug) orgs)) [
      | inl met ↦
          next_slug-free show base k (n + 1) (numbered show base (n + 1)) s orgs
            (ground (arith, met))
      | inr free ↦ ground (arith, free)
    ]

module _ (show : ℕ → String) (show_injective : (m n : ℕ) → show m ≡ show n → m ≡ n)
    (base : String) where
  abbrev nth : ℕ → String
  nth = numbered show base

  nth_injective : (m n : ℕ) → nth m ≡ nth n → m ≡ n
  unfolding numbered
  nth_injective m n h = show_injective m n (
      append_cancel "-" (show m) (show n)
        (append_cancel (first_chars 70 base) (append "-" (show m)) (append "-" (show n)) h))

  -- The organisation has one of the `k` numbered slugs above `n`.
  abbrev holds : ℕ → ℕ → Org → Bool
  holds zero n o = false
  holds (suc k) n o = has_slug (nth (n + 1)) o || holds k (n + 1) o

  holds-number : (k n : ℕ) (o : Org) → holds k n o ≡ true → (m : ℕ) × (n + 1 ≤ m) × (o.slug ≡ nth m)
  holds-number zero n o h = absurd (ground arith)
  holds-number (suc k) n o h = elim (Bool-cases (has_slug (nth (n + 1)) o)) [
    | inl mine ↦ (n + 1, omega arith, (eq_iff o.slug (nth (n + 1))).0 mine)
    | inr other ↦
        let (m, above, e) = holds-number k (n + 1) o (ground (arith, other)) in (m, omega arith, e)
  ]

  -- No organisation has the next slug and one behind it as well.
  holds-apart :
      (k n : ℕ) (o : Org)
      → bit (has_slug (nth (n + 1)) o) + bit (holds k (n + 1) o) ≤ bit (holds (suc k) n o)
  holds-apart k n o = elim (Bool-cases (has_slug (nth (n + 1)) o)) [
    | inl mine ↦ elim (Bool-cases (holds k (n + 1) o)) [
      | inl later ↦
          let (m, above, e) = holds-number k (n + 1) o later in
          let same = nth_injective (n + 1) m (sym ((eq_iff o.slug (nth (n + 1))).0 mine) ∙ e) in
          absurd (omega arith)
      | inr apart ↦ rw (mine, apart) (omega arith)
    ]
    | inr other ↦ rw other (omega arith)
  ]

  -- Fuel that runs out has met an organisation for each slug.
  next_slug-none :
      (k n : ℕ) (orgs : List Org)
      → next_slug show base k (n + 1) (nth (n + 1)) orgs ≡ none
      → k ≤ count_where (holds k n) orgs
  unfolding next_slug
  next_slug-none zero n orgs h = omega arith
  next_slug-none (suc k) n orgs h = elim (Bool-cases (any_where (has_slug (nth (n + 1))) orgs)) [
    | inl met ↦
        let behind = next_slug-none k (n + 1) orgs (ground (arith, met)) in
        let here = any_where-count_where (has_slug (nth (n + 1))) orgs met in
        let both =
          count_where-disjoint (has_slug (nth (n + 1))) (holds k (n + 1)) (holds (suc k) n) orgs
            (holds-apart k n) in
        omega arith
    | inr free ↦ absurd (ground (arith, free))
  ]

  free_slug-some : (orgs : List Org) → free_slug show base orgs ≢ none
  unfolding free_slug next_slug
  free_slug-some orgs h = elim (Bool-cases (any_where (has_slug base) orgs)) [
    | inl met ↦
        let all = next_slug-none (length orgs + 1) 1 orgs (ground (arith, met)) in
        let most = count_where-length (holds (length orgs + 1) 1) orgs in omega arith
    | inr free ↦ ground (arith, free)
  ]

-- A slug that the loop ends in is free.
pub free_slug-free :
    (show : ℕ → String) (base : String) (orgs : List Org) (s : String)
    → free_slug show base orgs ≡ some s
    → any_where (has_slug s) orgs ≡ false
unfolding free_slug
free_slug-free show base orgs s e = next_slug-free show base (length orgs + 2) 1 base s orgs e

-- If numbers have different texts, the loop ends, with a slug that no organisation has: it needs to
-- look at two slugs more than there are organisations, at most, whatever the base and also where the
-- base is cut to 70 characters.
pub free_slug-IsFree :
    (show : ℕ → String) (base : String) (orgs : List Org)
    → ((m n : ℕ) → show m ≡ show n → m ≡ n)
    → (s : String) × (free_slug show base orgs ≡ some s) × (any_where (has_slug s) orgs ≡ false)
unfolding free_slug
free_slug-IsFree show base orgs injective = elim (Option-cases (free_slug show base orgs)) [
  | inl stuck ↦ absurd (free_slug-some show injective base orgs stuck)
  | inr (s, e) ↦ (s, e, next_slug-free show base (length orgs + 2) 1 base s orgs e)
]
