-- ===== src/Opportunities/Complete.antt =====
-- A list that is walked page by page is the whole list (`list_opportunities` of
-- backend/app/services/opportunities.py).
use dolphin_vc.Errors.{ok}
use dolphin_vc.Records.{Db, Opportunity}
use dolphin_vc.Opportunities.Listing.{
  is_falsy, selects, list_opportunities, key, older, Filter, put, newest_first,
}
use dolphin_vc.Base.{
  ℕ, suc, ◌+◌, ◌≡◌, inl, inr, String, Bool, true, false, Option, none, some, List, [], ◌∷◌, arith,
  All, select_where, length, Bool-cases, ◌==◌,
}
use dolphin_vc.Opportunities.Paging.{IsOrdered, older_trans, walk, walk_rows}

-- No two rows have an id.
abbrev IsDistinct : List Opportunity → Type 0
IsDistinct [] = Unit
IsDistinct (o ∷ rows) = All (λ x. (o.id == x.id) ≡ false) rows × IsDistinct rows

All-select_where :
    (P : Opportunity → Type 0) (p : Opportunity → Bool) (rows : List Opportunity)
    → All P rows
    → All P (select_where p rows)
unfolding select_where
All-select_where P p [] h = tt
All-select_where P p (x ∷ rows) h = elim (Bool-cases (p x)) [
  | inl hit ↦ rw hit (h.0, All-select_where P p rows h.1)
  | inr miss ↦ rw miss (All-select_where P p rows h.1)
]

select_where-IsDistinct :
    (p : Opportunity → Bool) (rows : List Opportunity)
    → IsDistinct rows
    → IsDistinct (select_where p rows)
unfolding select_where
select_where-IsDistinct p [] h = tt
select_where-IsDistinct p (x ∷ rows) h = elim (Bool-cases (p x)) [
  | inl hit ↦ rw hit (
    All-select_where (λ y. (x.id == y.id) ≡ false) p rows h.0,
    select_where-IsDistinct p rows h.1,
  )
  | inr miss ↦ rw miss (select_where-IsDistinct p rows h.1)
]

All-put :
    (P : Opportunity → Type 0) (o : Opportunity) (rows : List Opportunity)
    → P o
    → All P rows
    → All P (put o rows)
unfolding put
All-put P o [] ho h = (ho, tt)
All-put P o (x ∷ rows) ho h = elim (Bool-cases (older (key o) x)) [
  | inl before ↦ rw before (ho, h)
  | inr behind ↦ rw behind (h.0, All-put P o rows ho h.1)
]

All-newest_first :
    (P : Opportunity → Type 0) (rows : List Opportunity) → All P rows → All P (newest_first rows)
unfolding newest_first
All-newest_first P [] h = tt
All-newest_first P (x ∷ rows) h = All-put P x (newest_first rows) h.0 (All-newest_first P rows h.1)

older_total :
    (a b : Opportunity) → (a.id == b.id) ≡ false → older (key a) b ≡ false → older (key b) a ≡ true
older_total a b apart h = ground arith

All-older :
    (o x : Opportunity) (rows : List Opportunity)
    → older (key o) x ≡ true
    → All (λ y. older (key x) y ≡ true) rows
    → All (λ y. older (key o) y ≡ true) rows
All-older o x [] before h = tt
All-older o x (y ∷ rows) before h = (older_trans o x y before h.0, All-older o x rows before h.1)

put-IsOrdered :
    (o : Opportunity) (rows : List Opportunity)
    → All (λ x. (o.id == x.id) ≡ false) rows
    → IsOrdered rows
    → IsOrdered (put o rows)
unfolding put
put-IsOrdered o [] apart h = (tt, tt)
put-IsOrdered o (x ∷ rows) apart h = elim (Bool-cases (older (key o) x)) [
  | inl before ↦ rw before ((before, All-older o x rows before h.0), h)
  | inr behind ↦ rw behind (
    All-put (λ y. older (key x) y ≡ true) o rows (older_total o x apart.0 behind) h.0,
    put-IsOrdered o rows apart.1 h.1,
  )
]

newest_first-IsOrdered : (rows : List Opportunity) → IsDistinct rows → IsOrdered (newest_first rows)
unfolding newest_first
newest_first-IsOrdered [] h = tt
newest_first-IsOrdered (x ∷ rows) h =
    put-IsOrdered x (newest_first rows) (All-newest_first (λ y. (x.id == y.id) ≡ false) rows h.0)
      (newest_first-IsOrdered rows h.1)

module _ (encode : ℕ × ℕ → String) (decode : String → Option (ℕ × ℕ))
    (matches : Option String → Opportunity → Bool) (org_id : ℕ) (f : Filter) (now : ℕ)
    (db : Db) where
  -- The rows that a request is about, all of them and in their order.
  abbrev pub whole : List Opportunity
  whole = newest_first (select_where (selects matches org_id f now) db.opportunities)

  -- If a cursor decodes to the key that it encodes and is never empty, and no two opportunities have an id, then asking
  -- for page after page, from no cursor and each behind the cursor of the one before, gives all the
  -- rows that the request is about, each once and in their order, whatever the size of the pages, at
  -- least one; and one page more than there are rows is enough for the cursors to end.
  pub list_opportunities-walk :
      (n : ℕ)
      → ((k : ℕ × ℕ) → decode (encode k) ≡ some k)
      → ((k : ℕ × ℕ) → is_falsy (encode k) ≡ false)
      → IsDistinct db.opportunities
      → walk
          (length whole + 1)
          none
          (λ cursor. list_opportunities encode decode matches org_id f now cursor (suc n) db)
        ≡ ok whole
  unfolding list_opportunities
  list_opportunities-walk n law text distinct =
      walk_rows encode decode law text whole
        (newest_first-IsOrdered (select_where (selects matches org_id f now) db.opportunities)
          (select_where-IsDistinct (selects matches org_id f now) db.opportunities distinct))
        n
