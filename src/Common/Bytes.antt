-- ===== src/Common/Bytes.antt =====
-- Operations on bytes: facts about every value of a small range are checked by evaluation.
use Prim.Native.Nat.{ℕ, zero, suc, ◌<◌, bit_xor}
use mathlib.Core.Path.{◌≡◌, refl}
use mathlib.Core.Bool.{Bool, true, ◌&&◌}
use native.Mathlib.Omega.{arith}
use benliud.Common.Tests.{◌==◌, ltb, ==_iff, &&-eq-true, ltb→lt}

-- A test passes at every number below a bound.
unfoldable pub all_below : ℕ → (ℕ → Bool) → Bool
all_below zero test = true
all_below (suc bound) test = test bound && all_below bound test

pub all_below_sound :
    (bound : ℕ) (test : ℕ → Bool) (i : ℕ) → all_below bound test ≡ true → i < bound → test i ≡ true
unfolding all_below
all_below_sound zero test i checked below = absurd (omega arith)
all_below_sound (suc bound) test i checked below = ground (arith, all_below_sound bound test i)

pub all_below_complete :
    (n : ℕ) (p : ℕ → Bool) → ((x : ℕ) → x < n → p x ≡ true) → all_below n p ≡ true
unfolding all_below
all_below_complete zero p h = refl
all_below_complete (suc n) p h =
    ground (arith, h n (omega arith), all_below_complete n p (λ x lt. h x (omega arith)))

-- The same over pairs.
pub all_below₂_sound :
    (n m : ℕ) (p : ℕ → ℕ → Bool) (x y : ℕ)
    → all_below n (λ a. all_below m (p a)) ≡ true
    → x < n
    → y < m
    → p x y ≡ true
all_below₂_sound n m p x y h hx hy =
    all_below_sound m (p x) y (all_below_sound n (λ a. all_below m (p a)) x h hx) hy

xor_table :
    all_below 256 (λ a.
      all_below 256 (λ b.
        bit_xor a (bit_xor a b) == b && (bit_xor a b == bit_xor b a && ltb (bit_xor a b) 256)))
    ≡ true
unfolding all_below
xor_table = refl

-- Exclusive or of two bytes: taken twice it cancels, it is symmetric, and it is a byte.
pub xor_row :
    (a b : ℕ)
    → a < 256
    → b < 256
    → (bit_xor a (bit_xor a b) ≡ b) × (bit_xor a b ≡ bit_xor b a) × (bit_xor a b < 256)
xor_row a b ha hb =
    let row = (&&-eq-true _ _).0 (
      all_below₂_sound 256 256
        (λ a b.
          bit_xor a (bit_xor a b) == b && (bit_xor a b == bit_xor b a && ltb (bit_xor a b) 256))
        a b xor_table ha hb) in
    let tail = (&&-eq-true _ _).0 row.1 in
    ((==_iff _ _).0 row.0, (==_iff _ _).0 tail.0, ltb→lt _ _ tail.1)
