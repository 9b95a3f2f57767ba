-- ===== src/Theses/Ordered.antt =====
-- Unique ids and defaults of theses
-- (backend/app/routers/theses.py).
use mathlib.Core.Option
use dolphin_vc.Base.{
  find_where-update_where, ℕ, ◌+◌, ◌≤◌, ◌≡◌, refl, inl, inr, Bool, true, false, ◌&&◌, some, List,
  [], ◌∷◌, ◌++◌, arith, ◌==◌, ==_eq, bit, change, find_where, count_where, update_where, Bool-cases,
  count_where-insert, count_where-update_where-le, count_where-update_where-eq,
  count_where-update_where_none, count_where-update_where-add, count_where-disjoint,
  find_where-some→count_where, ap, ◌∙◌,
}
use dolphin_vc.Records.{Thesis}
use dolphin_vc.Theses.Commands.{thesis_of, thesis_is, owned_thesis, with_default}

abbrev pub default_of : ℕ → Thesis → Bool
default_of org t = thesis_of org t && t.is_default

abbrev default_count : ℕ → List Thesis → ℕ
default_count org = count_where (default_of org)

-- No two theses have one id, and no organisation has two default theses.
pub record IsOrdered (l : List Thesis) : Type 0 where
  pub keyed : (id : ℕ) → count_where (thesis_is id) l ≤ 1
  pub single : (org : ℕ) → default_count org l ≤ 1

bit-le : (b : Bool) → bit b ≤ 1
bit-le b = ground arith

abbrev pub cleared : ℕ → List Thesis → List Thesis
cleared org = update_where (thesis_of org) (with_default false)

pub cleared_none : (org : ℕ) (l : List Thesis) → default_count org (cleared org l) ≡ 0
cleared_none org l =
    count_where-update_where_none (default_of org) (thesis_of org) (with_default false) l
      (λ t. ground arith)

-- An update that keeps ids and makes no thesis a default keeps the order.
pub update-IsOrdered :
    (q : Thesis → Bool) (g : Thesis → Thesis) (l : List Thesis)
    → ((t : Thesis) → (g t).id ≡ t.id)
    → ((org : ℕ) (t : Thesis) → bit (default_of org (change q g t)) ≤ bit (default_of org t))
    → IsOrdered l
    → IsOrdered (update_where q g l)
update-IsOrdered q g l same less inv = record {
  keyed = λ id. omega (
    arith,
    inv.keyed id,
    count_where-update_where-eq (thesis_is id) q g l (λ t. ground (arith, same t)),
  );
  single = λ org.
      omega (arith, inv.single org, count_where-update_where-le (default_of org) q g l (less org));
}

pub cleared-IsOrdered : (org : ℕ) (l : List Thesis) → IsOrdered l → IsOrdered (cleared org l)
cleared-IsOrdered org l =
    update-IsOrdered (thesis_of org) (with_default false) l (λ t. refl) (λ o t. ground arith)

insert-keyed :
    (l : List Thesis) (new : Thesis) (id : ℕ)
    → count_where (thesis_is new.id) l ≡ 0
    → count_where (thesis_is id) l ≤ 1
    → count_where (thesis_is id) (l ++ new ∷ []) ≤ 1
insert-keyed l new id fresh h = elim (Bool-cases (new.id == id)) [
  | inl same ↦
      rw (← ==_eq new.id id same) (
        omega
          (arith, fresh, bit-le (new.id == new.id), count_where-insert (thesis_is new.id) l new))
  | inr other ↦ omega (arith, h, ap bit other, count_where-insert (thesis_is id) l new)
]

insert-single :
    (l : List Thesis) (new : Thesis) (org : ℕ)
    → (new.is_default ≡ true → default_count new.org_id l ≡ 0)
    → default_count org l ≤ 1
    → default_count org (l ++ new ∷ []) ≤ 1
insert-single l new org free h = elim (Bool-cases (default_of org new)) [
  | inl same ↦ rw (← ==_eq new.org_id org (ground arith)) (
      omega (
        arith,
        free (ground arith),
        bit-le (default_of new.org_id new),
        count_where-insert (default_of new.org_id) l new,
      ))
  | inr other ↦ omega (arith, h, ap bit other, count_where-insert (default_of org) l new)
]

pub insert-IsOrdered :
    (l : List Thesis) (new : Thesis)
    → count_where (thesis_is new.id) l ≡ 0
    → (new.is_default ≡ true → default_count new.org_id l ≡ 0)
    → IsOrdered l
    → IsOrdered (l ++ new ∷ [])
insert-IsOrdered l new fresh free inv = record {
  keyed = λ id. insert-keyed l new id fresh (inv.keyed id);
  single = λ org. insert-single l new org free (inv.single org);
}

owned-le :
    (org id : ℕ) (l : List Thesis)
    → count_where (owned_thesis org id) l ≤ count_where (thesis_is id) l
owned-le org id l = omega (
  arith,
  count_where-disjoint (owned_thesis org id) (λ t. false) (thesis_is id) l (λ t. ground arith),
)

-- Where the thesis with the id is one organisation's, it is no other's.
owned_other :
    (org other id : ℕ) (l : List Thesis) (t : Thesis)
    → find_where (owned_thesis org id) l ≡ some t
    → (other == org) ≡ false
    → count_where (owned_thesis other id) l + 1 ≤ count_where (thesis_is id) l
owned_other org other id l t found ne = omega (
  arith,
  find_where-some→count_where (owned_thesis org id) l t found,
  count_where-disjoint (owned_thesis other id) (owned_thesis org id) (thesis_is id) l
      (λ x. ground (arith, ne)),
)

-- Of a thesis that is found and whose organisation has no default, the promotion keeps the order.
pub promoted-IsOrdered :
    (org id : ℕ) (l : List Thesis) (t : Thesis)
    → find_where (owned_thesis org id) l ≡ some t
    → default_count org l ≡ 0
    → IsOrdered l
    → IsOrdered (update_where (thesis_is id) (with_default true) l)
promoted-IsOrdered org id l t found free inv = record {
  keyed = λ k. omega (
    arith,
    inv.keyed k,
    count_where-update_where-eq (thesis_is k) (thesis_is id) (with_default true) l
        (λ x. ground arith),
  );
  single = λ o.
      let more =
        count_where-update_where-add (default_of o) (thesis_is id) (owned_thesis o id)
          (with_default true) l (λ x. ground arith) in
      elim (Bool-cases (o == org)) [
        | inl same ↦
            let none_left : default_count o l ≡ 0 = rw (==_eq o org same) free in
            omega (arith, more, owned-le o id l, inv.keyed id, none_left)
        | inr other ↦
            omega (arith, more, inv.single o, inv.keyed id, owned_other org o id l t found other)
      ];
}

pub find_where-cleared :
    (org id : ℕ) (l : List Thesis) (t : Thesis)
    → find_where (owned_thesis org id) l ≡ some t
    → find_where (owned_thesis org id) (cleared org l)
      ≡ some (change (thesis_of org) (with_default false) t)
find_where-cleared org id l t found =
    find_where-update_where (owned_thesis org id) (thesis_of org) (with_default false) l
      (λ x. ground arith)
    ∙ ap (Option.map (change (thesis_of org) (with_default false))) found
