-- ===== src/Dht/DataBase/Items.antt =====
-- The items under one key of DataBase.cpp: no address stands there twice.
use benliud.Common.{
  ℕ, ◌+◌, ◌≡◌, ◌⊎◌, refl, subst, Bool, false, not, arith, List, [], ◌∷◌, ◌++◌, none, some, length,
  length-append, All, All-append, Bool-cases, Option-cases, inl, inr,
}
use benliud.Common.Search.{
  find_first, remove_first, keep, count, remove_first-All, length-remove_first,
}
use benliud.Dht.Key.{eq}
use benliud.Dht.Key.Order.{eq_iff}
use benliud.Dht.DataBase.{DbItem, same_item, is_expired, replace_item}

-- No item has the address.
abbrev pub Absent : List ℕ → List DbItem → Type 0
Absent a = All (λ i. eq i.item a ≡ false)

-- No address stands in two items.
abbrev pub Distinct : List DbItem → Type 0
Distinct [] = Unit
Distinct (i ∷ is) = Absent i.item is × Distinct is

Distinct-snoc :
    (is : List DbItem) (x : DbItem) → Distinct is → Absent x.item is → Distinct (is ++ x ∷ [])
Distinct-snoc [] x d a = (tt, tt)
Distinct-snoc (i ∷ is) x d a = (
  All-append (λ j. eq j.item i.item ≡ false) is (x ∷ []) d.0
      (ground (arith, a.0, eq_iff i.item x.item, eq_iff x.item i.item), tt),
  Distinct-snoc is x d.1 a.1,
)

-- Without its first item of an address, a list of distinct ones has none of that address.
erased :
    (x : DbItem) (is : List DbItem)
    → Distinct is
    → Distinct (remove_first (λ i. same_item i x) is)
      × Absent x.item (remove_first (λ i. same_item i x) is)
unfolding remove_first same_item
erased x [] d = (tt, tt)
erased x (i ∷ is) d = elim (Bool-cases (eq i.item x.item)) [
  | inl h ↦ rw h (d.1, subst (λ a. Absent a is) ((eq_iff i.item x.item).0 h) d.0)
  | inr h ↦ rw h (
    (remove_first-All (λ y. eq y.item i.item ≡ false) _ is d.0, (erased x is d.1).0),
    (h, (erased x is d.1).1),
  )
]

pub replace_item-Distinct :
    (x : DbItem) (is : List DbItem) → Distinct is → Distinct (replace_item x is)
unfolding replace_item
replace_item-Distinct x is d =
    Distinct-snoc (remove_first (λ i. same_item i x) is) x (erased x is d).0 (erased x is d).1

length-remove_none :
    (x : DbItem) (is : List DbItem)
    → find_first (λ i. same_item i x) is ≡ none
    → length (remove_first (λ i. same_item i x) is) ≡ length is
unfolding find_first remove_first
length-remove_none x [] e = refl
length-remove_none x (i ∷ is) e = ground (arith, length-remove_none x is)

-- A replaced item keeps the number, a new one adds one.
pub length-replace_item :
    (x : DbItem) (is : List DbItem)
    → ((find_first (λ i. same_item i x) is ≡ none) × (length (replace_item x is) ≡ length is + 1))
      ⊎ ((y : DbItem) × (find_first (λ i. same_item i x) is ≡ some y)
          × (length (replace_item x is) ≡ length is))
unfolding replace_item
length-replace_item x is = elim (Option-cases (find_first (λ i. same_item i x) is)) [
  | inl e ↦ inl (
    e,
    omega (
      arith,
      length-append (remove_first (λ i. same_item i x) is) (x ∷ []),
      length-remove_none x is e,
    ),
  )
  | inr (y, e) ↦ inr (
    y,
    e,
    omega (
      arith,
      length-append (remove_first (λ i. same_item i x) is) (x ∷ []),
      length-remove_first (λ i. same_item i x) is y e,
    ),
  )
]

All-keep :
    (test : DbItem → Bool) (P : DbItem → Type 0) (is : List DbItem)
    → All P is
    → All P (keep test is)
unfolding keep
All-keep test P [] h = tt
All-keep test P (i ∷ is) h = elim (Bool-cases (test i)) [
  | inl e ↦ rw e (h.0, All-keep test P is h.1)
  | inr e ↦ rw e (All-keep test P is h.1)
]

pub keep-Distinct :
    (test : DbItem → Bool) (is : List DbItem) → Distinct is → Distinct (keep test is)
unfolding keep
keep-Distinct test [] d = tt
keep-Distinct test (i ∷ is) d = elim (Bool-cases (test i)) [
  | inl e ↦ rw e (All-keep test (λ j. eq j.item i.item ≡ false) is d.0, keep-Distinct test is d.1)
  | inr e ↦ rw e (keep-Distinct test is d.1)
]

-- An item is kept or counted as expired.
pub length-keep_fresh :
    (now : ℕ) (is : List DbItem)
    → length (keep (λ i. not (is_expired now i)) is) + count (is_expired now) is ≡ length is
unfolding keep count
length-keep_fresh now [] = refl
length-keep_fresh now (i ∷ is) = elim (Bool-cases (is_expired now i)) [
  | inl e ↦ rw e (omega (arith, length-keep_fresh now is))
  | inr e ↦ rw e (omega (arith, length-keep_fresh now is))
]
