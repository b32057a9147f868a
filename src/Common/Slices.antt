-- ===== src/Common/Slices.antt =====
-- The part of a list between two offsets, and parts of it.
use Prim.Native.Nat.{ℕ, zero, suc, ◌+◌, ◌-◌, ◌≤◌}
use mathlib.Core.Path.{◌≡◌, refl, ap, sym, ◌∙◌}
use mathlib.Core.List.{List, [], ◌∷◌}
use native.Mathlib.Omega.{arith}
use benliud.Common.Lists.{length, replicate, take, drop}

abbrev pub slice : ℕ → ℕ → List ℕ → List ℕ
slice offset len xs = take len (drop offset xs)

drop_nil : (n : ℕ) → drop {A = ℕ} n [] ≡ []
drop_nil zero = refl
drop_nil (suc n) = refl

drop_twice : (m n : ℕ) (xs : List ℕ) → drop n (drop m xs) ≡ drop (m + n) xs
drop_twice zero n xs = ap (λ k. drop k xs) {x = n} {y = zero + n} (omega arith)
drop_twice (suc m) n [] = drop_nil n ∙ sym (drop_nil (suc m + n))
drop_twice (suc m) n (x ∷ xs) =
    drop_twice m n xs ∙ ap (λ k. drop k (x ∷ xs)) {x = suc (m + n)} {y = suc m + n} (omega arith)

take_less : (n m : ℕ) (xs : List ℕ) → n ≤ m → take n (take m xs) ≡ take n xs
take_less zero m xs h = refl
take_less (suc n) zero xs h = absurd (omega arith)
take_less (suc n) (suc m) [] h = refl
take_less (suc n) (suc m) (x ∷ xs) h = ap (◌∷◌ x) (take_less n m xs (omega arith))

slice-take : (o n m : ℕ) (xs : List ℕ) → o + n ≤ m → slice o n (take m xs) ≡ slice o n xs
slice-take zero n m xs h = take_less n m xs (omega arith)
slice-take (suc o) n zero xs h = absurd (omega arith)
slice-take (suc o) n (suc m) [] h = refl
slice-take (suc o) n (suc m) (x ∷ xs) h = slice-take o n m xs (omega arith)

pub slice-slice :
    (s m o n : ℕ) (xs : List ℕ) → o + n ≤ m → slice o n (slice s m xs) ≡ slice (s + o) n xs
slice-slice s m o n xs h = slice-take o n m (drop s xs) h ∙ ap (take n) (drop_twice s o xs)

pub length-take : (n : ℕ) (xs : List ℕ) → n ≤ length xs → length (take n xs) ≡ n
length-take zero xs h = refl
length-take (suc n) [] h = absurd (omega arith)
length-take (suc n) (x ∷ xs) h = ap suc (length-take n xs (omega arith))

pub length-drop : (n : ℕ) (xs : List ℕ) → length (drop n xs) ≡ length xs - n
length-drop zero xs = omega arith
length-drop (suc n) [] = omega arith
length-drop (suc n) (x ∷ xs) = omega (arith, length-drop n xs)

pub take_whole : (xs : List ℕ) → take (length xs) xs ≡ xs
take_whole [] = refl
take_whole (x ∷ xs) = ap (◌∷◌ x) (take_whole xs)

-- A part of a part, up to what its offset and length are equal to.
pub slice_of :
    (xs bytes : List ℕ) (s o n at : ℕ)
    → bytes ≡ slice s (length bytes) xs
    → o + n ≤ length bytes
    → s + o ≡ at
    → slice o n bytes ≡ slice at n xs
slice_of xs bytes s o n at e h a =
    ap (slice o n) e ∙ slice-slice s (length bytes) o n xs h ∙ ap (λ k. slice k n xs) a

-- A part of zeros is zeros.
pub slice-replicate : (k n m : ℕ) → k + n ≤ m → slice k n (replicate m 0) ≡ replicate n 0
slice-replicate zero zero m h = refl
slice-replicate zero (suc n) zero h = absurd (omega arith)
slice-replicate zero (suc n) (suc m) h = ap (◌∷◌ 0) (slice-replicate zero n m (omega arith))
slice-replicate (suc k) zero zero h = absurd (omega arith)
slice-replicate (suc k) (suc n) zero h = absurd (omega arith)
slice-replicate (suc k) n (suc m) h = slice-replicate k n m (omega arith)
