-- ===== src/Common/Search.antt =====
-- `for (it = begin; it != end; it++) if (test(*it)) { change(*it); return; }` over a `std::list`:
-- the first element that passes a test, and the list with that element changed.
use Prim.Native.Nat.{ℕ, ◌+◌, ◌≤◌}
use mathlib.Core.Path.{◌≡◌, refl, ap}
use mathlib.Core.Logic.{inl, inr, ◌↔◌}
use mathlib.Core.Bool.{Bool, true, false}
use mathlib.Core.Option.{Option, none, some}
use mathlib.Core.List.{List, [], ◌∷◌}
use native.Mathlib.Omega.{arith}
use benliud.Common.Tests.{if◌then◌else◌, bit, Bool-cases}
use benliud.Common.Lists.{length, All}

module _ {ℓ} {A : Type ℓ} where
  unfoldable pub find_first : (A → Bool) → List A → Option A
  find_first test [] = none
  find_first test (x ∷ xs) = if test x then some x else find_first test xs

  unfoldable pub update_first : (A → Bool) → (A → A) → List A → List A
  update_first test f [] = []
  update_first test f (x ∷ xs) = if test x then f x ∷ xs else x ∷ update_first test f xs

  -- `erase` of the first element that passes the test.
  unfoldable pub remove_first : (A → Bool) → List A → List A
  remove_first test [] = []
  remove_first test (x ∷ xs) = if test x then xs else x ∷ remove_first test xs

  -- The elements that pass the test.
  unfoldable pub keep : (A → Bool) → List A → List A
  keep test [] = []
  keep test (x ∷ xs) = if test x then x ∷ keep test xs else keep test xs

  -- How many elements pass the test.
  unfoldable pub count : (A → Bool) → List A → ℕ
  count test [] = 0
  count test (x ∷ xs) = bit (test x) + count test xs

  -- Every element passes the test.
  unfoldable pub all : (A → Bool) → List A → Bool
  all test [] = true
  all test (x ∷ xs) = if test x then all test xs else false

  pub find_first_sound :
      (test : A → Bool) (xs : List A) (x : A) → find_first test xs ≡ some x → test x ≡ true
  unfolding find_first
  find_first_sound test [] x h = ground arith
  find_first_sound test (y ∷ ys) x h =
      ground (arith, find_first_sound test ys x, ap test {x = y} {y = x})

  pub find_first-none :
      (test : A → Bool) (xs : List A) → find_first test xs ≡ none → All (λ x. test x ≡ false) xs
  unfolding find_first
  find_first-none test [] h = tt
  find_first-none test (y ∷ ys) h = (ground arith, find_first-none test ys (ground arith))

  pub length-update_first :
      (test : A → Bool) (f : A → A) (xs : List A) → length (update_first test f xs) ≡ length xs
  unfolding update_first
  length-update_first test f [] = refl
  length-update_first test f (x ∷ xs) = ground (arith, length-update_first test f xs)

  pub update_first-All {κ} :
      (P : A → Type κ) (test : A → Bool) (f : A → A) (xs : List A)
      → ((x : A) → test x ≡ true → P x → P (f x))
      → All P xs
      → All P (update_first test f xs)
  unfolding update_first
  update_first-All P test f [] keep h = tt
  update_first-All P test f (x ∷ xs) keep h = elim (Bool-cases (test x)) [
    | inl e ↦ rw e (keep x e h.0, h.1)
    | inr e ↦ rw e (h.0, update_first-All P test f xs keep h.1)
  ]

  -- A count changes by what happens to the changed element.
  pub count-update_first :
      (q test : A → Bool) (f : A → A) (xs : List A) (x : A)
      → find_first test xs ≡ some x
      → count q (update_first test f xs) + bit (q x) ≡ count q xs + bit (q (f x))
  unfolding find_first update_first count
  count-update_first q test f [] x h = ground arith
  count-update_first q test f (y ∷ ys) x h = ground (
    arith,
    count-update_first q test f ys x,
    ap q {x = y} {y = x},
    ap (λ t. q (f t)) {x = y} {y = x},
  )

  pub count-ge_find_first :
      (q test : A → Bool) (xs : List A) (x : A)
      → find_first test xs ≡ some x
      → bit (q x) ≤ count q xs
  unfolding find_first count
  count-ge_find_first q test [] x h = ground arith
  count-ge_find_first q test (y ∷ ys) x h =
      ground (arith, count-ge_find_first q test ys x, ap q {x = y} {y = x})

  pub count-le-length : (q : A → Bool) (xs : List A) → count q xs ≤ length xs
  unfolding count
  count-le-length q [] = omega arith
  count-le-length q (x ∷ xs) = ground (arith, count-le-length q xs)

  pub all_iff : (test : A → Bool) (xs : List A) → (all test xs ≡ true) ↔ All (λ x. test x ≡ true) xs
  unfolding all
  all_iff test [] = (λ _. tt, λ _. refl)
  all_iff test (x ∷ xs) = (
    λ h. (ground arith, (all_iff test xs).0 (ground arith)),
    λ h. ground (arith, h.0, (all_iff test xs).1 h.1),
  )

  pub length-remove_first :
      (test : A → Bool) (xs : List A) (x : A)
      → find_first test xs ≡ some x
      → length (remove_first test xs) + 1 ≡ length xs
  unfolding find_first remove_first
  length-remove_first test [] x h = absurd (cc)
  length-remove_first test (y ∷ ys) x h = ground (arith, length-remove_first test ys x)

  pub remove_first-All {κ} :
      (P : A → Type κ) (test : A → Bool) (xs : List A) → All P xs → All P (remove_first test xs)
  unfolding remove_first
  remove_first-All P test [] h = tt
  remove_first-All P test (x ∷ xs) h = elim (Bool-cases (test x)) [
    | inl e ↦ rw e h.1
    | inr e ↦ rw e (h.0, remove_first-All P test xs h.1)
  ]

  pub keep-All : (test : A → Bool) (xs : List A) → All (λ x. test x ≡ true) (keep test xs)
  unfolding keep
  keep-All test [] = tt
  keep-All test (x ∷ xs) = elim (Bool-cases (test x)) [
    | inl e ↦ rw e (e, keep-All test xs)
    | inr e ↦ rw e (keep-All test xs)
  ]
