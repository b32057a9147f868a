-- ===== src/Dht/DataBase/Expiry.antt =====
-- What `Expire` of DataBase.cpp leaves.
use benliud.Common.{
  ℕ, ◌≡◌, refl, ap, Bool, true, not, arith, List, [], ◌∷◌, ◌++◌, length, map, ◌==◌, Bool-cases, inl,
  inr, if◌then◌else◌,
}
use benliud.Common.Search.{keep}
use benliud.Dht.Key.{Key}
use benliud.Dht.DataBase.{DbItem, DataBase, Table, expire, expire_table, is_expired}

-- Each item with its key, in the order of the table.
pub pairs : Table (List DbItem) → List (Key × DbItem)
pairs [] = []
pairs (p ∷ m) = map (λ i. (p.0, i)) p.1 ++ pairs m

keep-append :
    (test : Key × DbItem → Bool) (xs ys : List (Key × DbItem))
    → keep test (xs ++ ys) ≡ keep test xs ++ keep test ys
unfolding keep
keep-append test [] ys = refl
keep-append test (x ∷ xs) ys = ground (arith, keep-append test xs ys)

keep-map :
    (k : Key) (test : DbItem → Bool) (is : List DbItem)
    → keep (λ (q : Key × DbItem). test q.1) (map (λ i. (k, i)) is)
      ≡ map (λ i. (k, i)) (keep test is)
unfolding keep
keep-map k test [] = refl
keep-map k test (i ∷ is) = elim (Bool-cases (test i)) [
  | inl e ↦ rw e (ap (◌∷◌ (k, i)) (keep-map k test is))
  | inr e ↦ rw e (keep-map k test is)
]

nothing_left : (is : List DbItem) → (length is == 0) ≡ true → is ≡ []
nothing_left [] h = refl
nothing_left (i ∷ is) h = absurd (ground (arith, h))

pairs_of_left :
    (k : Key) (left : List DbItem) (rest : Table (List DbItem))
    → pairs (if length left == 0 then rest else (k, left) ∷ rest)
      ≡ map (λ i. (k, i)) left ++ pairs rest
unfolding pairs
pairs_of_left k left rest = elim (Bool-cases (length left == 0)) [
  | inl e ↦ rw (e, nothing_left left e)
  | inr e ↦ rw e
]

pairs-expire_table :
    (now : ℕ) (m : Table (List DbItem))
    → pairs (expire_table now m) ≡ keep (λ (q : Key × DbItem). not (is_expired now q.1)) (pairs m)
unfolding pairs expire_table keep
pairs-expire_table now [] = refl
pairs-expire_table now (p ∷ m) =
    rw
      (
        keep-append (λ (q : Key × DbItem). not (is_expired now q.1)) (map (λ i. (p.0, i)) p.1)
            (pairs m),
        keep-map p.0 (λ i. not (is_expired now i)) p.1,
        ← pairs-expire_table now m,
      )
      (pairs_of_left p.0 (keep (λ i. not (is_expired now i)) p.1) (expire_table now m))

-- `Expire` leaves the items that are not expired, in their order and each under its key, and
-- nothing else.
expire_lem :
    (now : ℕ) (d : DataBase)
    → pairs (expire now d).database
      ≡ keep (λ (q : Key × DbItem). not (is_expired now q.1)) (pairs d.database)
unfolding expire
expire_lem now d = pairs-expire_table now d.database
