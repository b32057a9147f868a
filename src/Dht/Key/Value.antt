-- ===== src/Dht/Key/Value.antt =====
-- A key of BTDHTKey.cpp as a number: the weights of its bytes, and the distance 0.
use native.Mathlib.Nat.{mul_assoc, mul-le-mul_right, one-le-pow, one-le-mul, add-mul}
use native.Mathlib.Omega.{pow_step}
use benliud.Common.{
  ℕ, zero, suc, ◌+◌, ◌*◌, ◌^◌, ◌<◌, ◌≤◌, ◌≡◌, refl, ap, ap₂, bit_xor, ◌∙◌, sym, true, arith, [],
  ◌∷◌, length, All, ◌==◌, ==_iff,
}
use benliud.Common.Bytes.{all_below, all_below_sound, xor_row}
use benliud.Dht.Key.{Key, minus}

-- A key as a number, its first byte the highest.
unfoldable pub key_value : Key → ℕ
key_value [] = 0
key_value (b ∷ bs) = b * 256 ^ length bs + key_value bs

pub succ_le : (a b : ℕ) → a < b → a + 1 ≤ b
succ_le a b h = omega arith

pub key_value-lt : (k : Key) → All (λ b. b < 256) k → key_value k < 256 ^ length k
unfolding key_value
key_value-lt [] h = omega arith
key_value-lt (b ∷ bs) h = omega (
  arith,
  key_value-lt bs h.1,
  pow_step 256 (length bs),
  mul-le-mul_right (256 ^ length bs) (succ_le b 256 h.0),
  add-mul b 1 (256 ^ length bs),
)

two_bytes : (n : ℕ) → 2 ^ suc (suc (suc (suc (suc (suc (suc (suc n))))))) ≡ 256 * 2 ^ n
two_bytes n = omega (
  arith,
  pow_step 2 (suc (suc (suc (suc (suc (suc (suc n))))))),
  pow_step 2 (suc (suc (suc (suc (suc (suc n)))))),
  pow_step 2 (suc (suc (suc (suc (suc n))))),
  pow_step 2 (suc (suc (suc (suc n)))),
  pow_step 2 (suc (suc (suc n))),
  pow_step 2 (suc (suc n)),
  pow_step 2 (suc n),
  pow_step 2 n,
)

pub bytes_pow : (n m : ℕ) → 2 ^ (n * 8 + m) ≡ 256 ^ n * 2 ^ m
bytes_pow zero m = ap (◌^◌ 2) {x = 0 * 8 + m} {y = m} (omega arith) ∙ omega arith
bytes_pow (suc n) m =
    ap (◌^◌ 2) {x = suc n * 8 + m} (omega arith)
    ∙ two_bytes (n * 8 + m)
    ∙ omega (
      arith,
      bytes_pow n m,
      ap (λ w. w * 2 ^ m) (pow_step 256 n),
      mul_assoc 256 (256 ^ n) (2 ^ m),
    )

xor_zero_table : all_below 256 (λ a. bit_xor a 0 == a) ≡ true
unfolding all_below
xor_zero_table = refl

pub same_byte : (a b : ℕ) → a < 256 → b < 256 → bit_xor a b ≡ 0 → a ≡ b
same_byte a b ha hb z =
    sym ((==_iff _ _).0 (all_below_sound 256 (λ a. bit_xor a 0 == a) a xor_zero_table ha))
    ∙ ap (bit_xor a) (sym z)
    ∙ (xor_row a b ha hb).0

byte_zero : (b w v : ℕ) → 0 < w → b * w + v ≡ 0 → (b ≡ 0) × (v ≡ 0)
byte_zero zero w v h e = (refl, omega arith)
byte_zero (suc b) w v h e = absurd (omega (arith, one-le-mul {a = suc b} {b = w} (omega arith) h))

pub same_key :
    (a b : Key)
    → length a ≡ length b
    → All (λ b. b < 256) a
    → All (λ b. b < 256) b
    → key_value (minus a b) ≡ 0
    → a ≡ b
unfolding key_value minus
same_key [] [] n p q z = refl
same_key [] (y ∷ ys) n p q z = absurd (omega arith)
same_key (x ∷ xs) [] n p q z = absurd (omega arith)
same_key (x ∷ xs) (y ∷ ys) n p q z =
    let (head, tail) =
      byte_zero (bit_xor x y) (256 ^ length (minus xs ys)) (key_value (minus xs ys))
        (one-le-pow (length (minus xs ys)) 256 (omega arith)) z in
    ap₂ ◌∷◌ (same_byte x y p.0 q.0 head) (same_key xs ys (omega arith) p.1 q.1 tail)
