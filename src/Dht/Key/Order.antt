-- ===== src/Dht/Key/Order.antt =====
-- The comparisons of BTDHTKey.cpp are those of one total order.
use benliud.Common.{
  ◌≡◌, ◌↔◌, ◌⊎◌, refl, ap, ap₂, true, false, not, arith, [], ◌∷◌, length, inl, inr,
}
use benliud.Dht.Key.{Key, eq, ne, lt, le, gt, ge}

pub eq_iff : (k l : Key) → (eq k l ≡ true) ↔ (k ≡ l)
unfolding eq
eq_iff [] [] = (λ _. refl, λ _. refl)
eq_iff [] (y ∷ ys) = (λ h. absurd (cc), λ h. absurd (cc))
eq_iff (x ∷ xs) [] = (λ h. absurd (cc), λ h. absurd (cc))
eq_iff (x ∷ xs) (y ∷ ys) = (
  λ h. ap₂ ◌∷◌ (ground arith) ((eq_iff xs ys).0 (ground arith)),
  λ h. ground (arith, h, (eq_iff xs ys).1),
)

pub eq_refl : (k : Key) → eq k k ≡ true
eq_refl k = (eq_iff k k).1 refl

pub lt_irrefl : (k : Key) → lt k k ≡ false
unfolding lt
lt_irrefl [] = refl
lt_irrefl (x ∷ xs) = ground (arith, lt_irrefl xs)

pub lt_trans : (a b c : Key) → lt a b ≡ true → lt b c ≡ true → lt a c ≡ true
unfolding lt
lt_trans [] [] c p q = absurd (cc)
lt_trans [] (y ∷ ys) c p q = absurd (cc)
lt_trans (x ∷ xs) [] c p q = absurd (cc)
lt_trans (x ∷ xs) (y ∷ ys) [] p q = absurd (cc)
lt_trans (x ∷ xs) (y ∷ ys) (z ∷ zs) p q = ground (arith, lt_trans xs ys zs)

-- Of two keys of one length exactly one of `<`, `==` and `>` holds.
pub lt_total : (a b : Key) → length a ≡ length b → (lt a b ≡ true) ⊎ ((a ≡ b) ⊎ (lt b a ≡ true))
unfolding lt
lt_total [] [] h = inr (inl refl)
lt_total [] (y ∷ ys) h = absurd (omega arith)
lt_total (x ∷ xs) [] h = absurd (omega arith)
lt_total (x ∷ xs) (y ∷ ys) h = elim (lt_total xs ys (omega arith)) [
  | inl p ↦ ground arith
  | inr (inl e) ↦ ground (arith, ap (◌∷◌ x) e)
  | inr (inr p) ↦ ground arith
]

-- `gt` is `lt` with the keys exchanged.
gt_lem : (a b : Key) → gt a b ≡ lt b a
unfolding lt gt
gt_lem [] [] = refl
gt_lem [] (y ∷ ys) = refl
gt_lem (x ∷ xs) [] = refl
gt_lem (x ∷ xs) (y ∷ ys) = ground (arith, gt_lem xs ys)

pub ne_lem : (a b : Key) → ne a b ≡ not (eq a b)
unfolding eq ne
ne_lem [] [] = refl
ne_lem [] (y ∷ ys) = refl
ne_lem (x ∷ xs) [] = refl
ne_lem (x ∷ xs) (y ∷ ys) = ground (arith, ne_lem xs ys)

-- The six comparisons of two keys of one length agree: exactly one of `<`, `==` and `>` holds, and
-- `!=`, `<=` and `>=` are the negations of `==`, `>` and `<`.
pub comparisons :
    (a b : Key)
    → length a ≡ length b
    → ((ne a b ≡ not (eq a b)) × (le a b ≡ not (gt a b)) × (ge a b ≡ not (lt a b)))
      × (((lt a b ≡ true) × (eq a b ≡ false) × (gt a b ≡ false))
          ⊎ (((lt a b ≡ false) × (eq a b ≡ true) × (gt a b ≡ false))
              ⊎ ((lt a b ≡ false) × (eq a b ≡ false) × (gt a b ≡ true))))
unfolding le ge
comparisons a b h = ground (
  arith,
  ne_lem a b,
  gt_lem a b,
  lt_total a b h,
  eq_iff a b,
  lt_trans a b a,
  lt_irrefl a,
  ap (λ k. lt a k) {x = a} {y = b},
  ap (λ k. lt k a) {x = a} {y = b},
)
