-- ===== src/Opportunities/Paging.antt =====
-- Walking the pages of a list (`list_opportunities` of backend/app/services/opportunities.py).
use dolphin_vc.Opportunities.Listing.{
  is_falsy, paged, behind_key, Page, behind, cut_page, page_behind, key, older, last_of,
}
use dolphin_vc.Records.{Opportunity}
use mathlib.Core.Path.{subst}
use dolphin_vc.Base.{
  ℕ, zero, suc, ◌+◌, ◌≤◌, ◌≡◌, ◌∙◌, ◌⊎◌, inl, inr, refl, sym, ap, String, Bool, true, false, Option,
  none, some, List, [], ◌∷◌, ◌++◌, arith, All, ltb, select_where, length,
}
use dolphin_vc.Base.Text.{take}
use dolphin_vc.Errors.{Result, ok, err}

-- Each row stands behind the rows before it.
abbrev pub IsOrdered : List Opportunity → Type 0
IsOrdered [] = Unit
IsOrdered (o ∷ rows) = All (λ x. older (key o) x ≡ true) rows × IsOrdered rows

older_asym : (a b : Opportunity) → older (key a) b ≡ true → older (key b) a ≡ false
older_asym a b h = ground arith

older_irrefl : (a : Opportunity) → older (key a) a ≡ false
older_irrefl a = ground arith

pub older_trans :
    (a b c : Opportunity) → older (key a) b ≡ true → older (key b) c ≡ true → older (key a) c ≡ true
older_trans a b c h k = ground arith

All-last :
    (P : Opportunity → Type 0) (o : Opportunity) (t ys : List Opportunity)
    → All P ((o ∷ t) ++ ys)
    → P (last_of o t)
All-last P o [] ys h = h.0
All-last P o (x ∷ t) ys h = All-last P x t ys h.1

All-right : (P : Opportunity → Type 0) (xs zs : List Opportunity) → All P (xs ++ zs) → All P zs
All-right P [] zs h = h
All-right P (x ∷ xs) zs h = All-right P xs zs h.1

select_where-All :
    (p : Opportunity → Bool) (ys : List Opportunity)
    → All (λ y. p y ≡ true) ys
    → select_where p ys ≡ ys
unfolding select_where
select_where-All p [] h = refl
select_where-All p (y ∷ ys) h = rw (h.0, select_where-All p ys h.1) refl

-- The rows behind the last of a page are those after the page.
behind_page :
    (o : Opportunity) (t ys : List Opportunity)
    → IsOrdered ((o ∷ t) ++ ys)
    → select_where (older (key (last_of o t))) ((o ∷ t) ++ ys) ≡ ys
unfolding select_where
behind_page o [] ys h = rw (older_irrefl o) (select_where-All (older (key o)) ys h.0)
behind_page o (x ∷ t) ys h =
    rw (older_asym o (last_of x t) (All-last (λ y. older (key o) y ≡ true) x t ys h.0))
      (behind_page x t ys h.1)

behind_pages :
    (xs : List Opportunity) (o : Opportunity) (t ys zs : List Opportunity)
    → zs ≡ (o ∷ t) ++ ys
    → IsOrdered (xs ++ zs)
    → select_where (older (key (last_of o t))) (xs ++ zs) ≡ ys
unfolding select_where
behind_pages [] o t ys zs e h = rw e (behind_page o t ys (subst IsOrdered e h))
behind_pages (x ∷ xs) o t ys zs e h =
    rw
      (older_asym x (last_of o t) (
        All-last (λ y. older (key x) y ≡ true) o t ys
          (subst (All (λ y. older (key x) y ≡ true)) e
            (All-right (λ y. older (key x) y ≡ true) xs zs h.0))))
      (behind_pages xs o t ys zs e h.1)

-- The rows that are left fit the page, or the page is full and rows are left behind it.
abbrev Fits : ℕ → List Opportunity → Type 0
Fits n zs = (take n (take (suc n) zs) ≡ zs) × (ltb n (length (take (suc n) zs)) ≡ false)

abbrev Overflows : ℕ → List Opportunity → Type 0
Overflows n zs =
    (ts ys : List Opportunity) × (zs ≡ ts ++ ys)
    × (take n (take (suc n) zs) ≡ ts)
    × (ltb n (length (take (suc n) zs)) ≡ true)
    × (length ts ≡ n)

page_cases : (n : ℕ) (zs : List Opportunity) → Fits n zs ⊎ Overflows n zs
unfolding take
page_cases zero [] = inl (refl, refl)
page_cases zero (z ∷ zs) = inr ([], z ∷ zs, refl, refl, refl, refl)
page_cases (suc n) [] = inl (refl, ground arith)
page_cases (suc n) (z ∷ zs) = elim (page_cases n zs) [
  | inl (all, few) ↦ inl (ap (λ l. z ∷ l) all, ground arith)
  | inr (ts, ys, split, page, many, full) ↦
      inr (z ∷ ts, ys, ap (λ l. z ∷ l) split, ap (λ l. z ∷ l) page, ground arith, ap suc full)
]

++_assoc : (xs ys zs : List Opportunity) → (xs ++ ys) ++ zs ≡ xs ++ (ys ++ zs)
++_assoc [] ys zs = refl
++_assoc (x ∷ xs) ys zs = ap (λ l. x ∷ l) (++_assoc xs ys zs)

length_append : (xs ys : List Opportunity) → length (xs ++ ys) ≡ length xs + length ys
length_append [] ys = omega arith
length_append (x ∷ xs) ys = let rest = length_append xs ys in omega arith

abbrev joined : List Opportunity → Result (List Opportunity) → Result (List Opportunity)
joined items (err e) = err e
joined items (ok rest) = ok (items ++ rest)

abbrev onward :
    (String → Result (List Opportunity))
    → List Opportunity
    → Option String
    → Result (List Opportunity)
onward again items none = ok items
onward again items (some c) = joined items (again c)

abbrev turn : (String → Result (List Opportunity)) → Result Page → Result (List Opportunity)
turn again (err e) = err e
turn again (ok page) = onward again page.items page.next_cursor

-- The items of `fuel` pages at most, each behind the cursor of the one before.
unfoldable pub walk : ℕ → Option String → (Option String → Result Page) → Result (List Opportunity)
walk zero cursor ask = ok []
walk (suc fuel) cursor ask = turn (λ c. walk fuel (some c) ask) (ask cursor)

module _ (encode : ℕ × ℕ → String) (decode : String → Option (ℕ × ℕ)) where
  module _ (law : (k : ℕ × ℕ) → decode (encode k) ≡ some k)
      (text : (k : ℕ × ℕ) → is_falsy (encode k) ≡ false) (rows : List Opportunity)
      (ordered : IsOrdered rows) where
    behind_last :
        (xs : List Opportunity) (o : Opportunity) (t ys zs : List Opportunity)
        → rows ≡ xs ++ zs
        → zs ≡ (o ∷ t) ++ ys
        → behind encode decode (some (encode (key (last_of o t)))) rows ≡ ok ys
    unfolding behind
    behind_last xs o t ys zs split rest = rw (text (key (last_of o t))) (
        ap (behind_key encode decode rows) (law (key (last_of o t)))
        ∙ ap ok (
            ap (select_where (older (key (last_of o t)))) split
            ∙ behind_pages xs o t ys zs rest (subst IsOrdered split ordered)))

    walk_from :
        (fuel n : ℕ) (cursor : Option String) (xs zs : List Opportunity)
        → rows ≡ xs ++ zs
        → behind encode decode cursor rows ≡ ok zs
        → length zs + 1 ≤ fuel
        → walk fuel cursor (λ c. page_behind encode decode (suc n) c rows) ≡ ok zs
    unfolding walk page_behind cut_page
    walk_from zero n cursor xs zs split here enough = absurd (omega arith)
    walk_from (suc fuel) n cursor xs zs split here enough =
        let again =
          λ (c : String). walk fuel (some c) (λ c'. page_behind encode decode (suc n) c' rows) in
        ap (λ r. turn again (paged encode decode (suc n) r)) here ∙ elim (page_cases (suc n) zs) [
          | inl (all, few) ↦ rw (few, all) refl
          | inr ([], ys, rest, page, many, full) ↦ absurd (omega arith)
          | inr (o ∷ t, ys, rest, page, many, full) ↦
              let shorter = ap length rest ∙ length_append (o ∷ t) ys in
              rw (many, page)
                (ap (joined (o ∷ t)) (
                    walk_from fuel n (some (encode (key (last_of o t)))) (xs ++ (o ∷ t)) ys
                      (split ∙ ap (λ l. xs ++ l) rest ∙ sym (++_assoc xs (o ∷ t) ys))
                      (behind_last xs o t ys zs split rest) (omega arith))
                  ∙ ap ok (sym rest))
        ]

    pub walk_rows :
        (n : ℕ)
        → walk (length rows + 1) none (λ c. page_behind encode decode (suc n) c rows) ≡ ok rows
    unfolding behind
    walk_rows n = walk_from (length rows + 1) n none [] rows refl refl (omega arith)
