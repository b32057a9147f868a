-- ===== src/Dht/Node/Bits.antt =====
-- The bits of `data[nb]` in `GetRandomKeyInBucket` of benliud_btkad/src/DHTNode.cpp, and the first bit
-- in which two bytes differ.
use benliud.Common.{
  ℕ, zero, suc, ◌+◌, ◌-◌, ◌*◌, ◌/◌, ◌^◌, ◌<◌, ◌≤◌, ◌≡◌, ◌≢◌, refl, ap, ap₂, ◌∙◌, sym, true, false,
  ◌&&◌, not, Bool, arith, Option, none, some, ltb, ◌==◌, if◌then◌else◌, bit_xor, bit_and, bit_or,
  subst, &&-eq-true, ==_iff, inl, inr, Bool-cases, Option-cases,
}
use native.Mathlib.Nat.{div-div-eq-div-mul, div-le_self, zero-div}
use native.Mathlib.Omega.{pow_step}
use benliud.Common.Bytes.{all_below, all_below_sound, all_below₂_sound, xor_row}
use benliud.Dht.Key.Value.{same_byte}
use benliud.Dht.Node.{mask, first_bit, copy_bits, differ}

-- The bits of a byte above bit `j`, and those with bit `j`.
abbrev pub above : ℕ → ℕ → ℕ
above j x = x / 2 ^ (8 - j)

abbrev pub upto : ℕ → ℕ → ℕ
upto j x = x / 2 ^ (7 - j)

bit_row : ℕ → ℕ → Bool
bit_row j x =
    (ltb (bit_or x (mask j)) 256
      && (above j (bit_or x (mask j)) == above j x
          && upto j (bit_or x (mask j)) == 2 * above j x + 1))
    && ((ltb (bit_and x (255 - mask j)) 256
          && (above j (bit_and x (255 - mask j)) == above j x
              && upto j (bit_and x (255 - mask j)) == 2 * above j x))
        && upto j x == 2 * above j x + (if bit_and (mask j) x == 0 then 0 else 1))

bit_table : all_below 8 (λ j. all_below 256 (bit_row j)) ≡ true
unfolding all_below bit_row
bit_table = refl

first_row : ℕ → ℕ → Option ℕ → Bool
first_row j z none = above j z == 0 && upto j z == 0
first_row j z (some k) = if above j z == 0 && not (upto j z == 0) then k == j else true

first_table : all_below 8 (λ j. all_below 256 (λ z. first_row j z (first_bit z 0 8))) ≡ true
unfolding all_below first_row first_bit
first_table = refl

half_table :
    all_below 256 (λ x. all_below 256 (λ y. bit_xor x y / 2 == bit_xor (x / 2) (y / 2))) ≡ true
unfolding all_below
half_table = refl

bit_facts :
    (j x : ℕ)
    → j < 8
    → x < 256
    → ((bit_or x (mask j) < 256)
        × (above j (bit_or x (mask j)) ≡ above j x)
        × (upto j (bit_or x (mask j)) ≡ 2 * above j x + 1))
      × ((bit_and x (255 - mask j) < 256)
          × (above j (bit_and x (255 - mask j)) ≡ above j x)
          × (upto j (bit_and x (255 - mask j)) ≡ 2 * above j x))
      × (upto j x ≡ 2 * above j x + (if bit_and (mask j) x == 0 then 0 else 1))
unfolding bit_row
bit_facts j x hj hx = ground (arith, all_below₂_sound 8 256 bit_row j x bit_table hj hx)

above-suc : (j x : ℕ) → j < 8 → above (suc j) x ≡ upto j x
above-suc j x h = ap (λ k. x / 2 ^ k) (omega arith)

upto_clear :
    (j x : ℕ) → j < 8 → x < 256 → (bit_and (mask j) x == 0) ≡ true → upto j x ≡ 2 * above j x
upto_clear j x hj hx e = ground (arith, e, (bit_facts j x hj hx).2)

upto_set :
    (j x : ℕ) → j < 8 → x < 256 → (bit_and (mask j) x == 0) ≡ false → upto j x ≡ 2 * above j x + 1
upto_set j x hj hx e = ground (arith, e, (bit_facts j x hj hx).2)

-- After the loop the byte has the bits of `ob` above bit `n`.
copy_bits_lem :
    (n ob d : ℕ)
    → n ≤ 8
    → ob < 256
    → d < 256
    → (copy_bits n ob d < 256) × (above n (copy_bits n ob d) ≡ above n ob)
unfolding copy_bits
copy_bits_lem zero ob d h ho hd = (hd, omega arith)
copy_bits_lem (suc j) ob d h ho hd =
    let (range, same) = copy_bits_lem j ob d (omega arith) ho hd in
    let now = bit_facts j (copy_bits j ob d) (omega arith) range in
    elim (Bool-cases (bit_and (mask j) ob == 0)) [
      | inl e ↦ rw e (
        now.1.0,
        above-suc j (bit_and (copy_bits j ob d) (255 - mask j)) (omega arith)
            ∙ omega (arith, now.1.2, same, upto_clear j ob (omega arith) ho e)
            ∙ sym (above-suc j ob (omega arith)),
      )
      | inr e ↦ rw e (
        now.0.0,
        above-suc j (bit_or (copy_bits j ob d) (mask j)) (omega arith)
            ∙ omega (arith, now.0.2, same, upto_set j ob (omega arith) ho e)
            ∙ sym (above-suc j ob (omega arith)),
      )
    ]

-- The next bit differs.
pub differ_lem :
    (j ob d : ℕ)
    → j < 8
    → ob < 256
    → d < 256
    → (differ j ob d < 256)
      × (above j (differ j ob d) ≡ above j ob)
      × (upto j (differ j ob d) ≢ upto j ob)
unfolding differ
differ_lem j ob d hj ho hd =
    let (range, same) = copy_bits_lem j ob d (omega arith) ho hd in
    let now = bit_facts j (copy_bits j ob d) hj range in
    elim (Bool-cases (bit_and (mask j) ob == 0)) [
      | inl e ↦ rw e (
        now.0.0,
        now.0.1 ∙ same,
        λ q. absurd (omega (arith, q, now.0.2, same, upto_clear j ob hj ho e)),
      )
      | inr e ↦ rw e (
        now.1.0,
        now.1.1 ∙ same,
        λ q. absurd (omega (arith, q, now.1.2, same, upto_set j ob hj ho e)),
      )
    ]

half_xor : (x y : ℕ) → x < 256 → y < 256 → bit_xor x y / 2 ≡ bit_xor (x / 2) (y / 2)
half_xor x y hx hy = (==_iff _ _).0 (
    all_below₂_sound 256 256 (λ x y. bit_xor x y / 2 == bit_xor (x / 2) (y / 2)) x y half_table hx
      hy)

shift_suc : (x k : ℕ) → x / 2 ^ suc k ≡ x / 2 / 2 ^ k
shift_suc x k = ap (λ p. x / p) (pow_step 2 k) ∙ sym (div-div-eq-div-mul x 2 (2 ^ k))

over_one : (x : ℕ) → x / 2 ^ 0 ≡ x
over_one x = omega arith

-- The exclusive or of two bytes, shifted.
shift_xor : (k x y : ℕ) → x < 256 → y < 256 → bit_xor x y / 2 ^ k ≡ bit_xor (x / 2 ^ k) (y / 2 ^ k)
shift_xor zero x y hx hy =
    over_one (bit_xor x y) ∙ ap₂ bit_xor (sym (over_one x)) (sym (over_one y))
shift_xor (suc k) x y hx hy =
    shift_suc (bit_xor x y) k
    ∙ ap (λ z. z / 2 ^ k) (half_xor x y hx hy)
    ∙ shift_xor k (x / 2) (y / 2) (omega arith) (omega arith)
    ∙ ap₂ bit_xor (sym (shift_suc x k)) (sym (shift_suc y k))

div_lt : (x n : ℕ) → x < 256 → x / n < 256
div_lt x n h = omega (arith, div-le_self x n, h)

not_zero : (z : ℕ) → z ≢ 0 → (z == 0) ≡ false
not_zero zero h = absurd (h refl)
not_zero (suc z) h = ground arith

xor_self_table : all_below 256 (λ a. bit_xor a a == 0) ≡ true
unfolding all_below
xor_self_table = refl

pub xor_self : (a : ℕ) → a < 256 → bit_xor a a ≡ 0
xor_self a h = (==_iff _ _).0 (all_below_sound 256 (λ a. bit_xor a a == 0) a xor_self_table h)

found_row :
    (a u c : Bool) → a ≡ true → u ≡ false → (if a && not u then c else true) ≡ true → c ≡ true
found_row a u c ha hu h = ground (arith, ha, hu, h)

first_bit_found :
    (j z : ℕ) → j < 8 → z < 256 → above j z ≡ 0 → upto j z ≢ 0 → first_bit z 0 8 ≡ some j
unfolding first_row
first_bit_found j z hj hz a u =
    let row =
      all_below₂_sound 8 256 (λ j z. first_row j z (first_bit z 0 8)) j z first_table hj hz in
    elim (Option-cases (first_bit z 0 8)) [
      | inl e ↦ absurd (
          u (
            (==_iff _ _).0
              ((&&-eq-true (above j z == 0) (upto j z == 0)).0
                (subst (λ o. first_row j z o ≡ true) e row)).1))
      | inr (k, e) ↦
          e
          ∙ ap some (
              (==_iff _ _).0 (
                found_row (above j z == 0) (upto j z == 0) (k == j) ((==_iff _ _).1 a)
                  (not_zero (upto j z) u) (subst (λ o. first_row j z o ≡ true) e row)))
    ]

zero_over : (n : ℕ) → 0 / 2 ^ n ≡ 0
zero_over n = zero-div (2 ^ n)

pub first_differ :
    (j a b : ℕ)
    → j < 8
    → a < 256
    → b < 256
    → above j a ≡ above j b
    → upto j a ≢ upto j b
    → (first_bit (bit_xor a b) 0 8 ≡ some j) × ((bit_xor a b == 0) ≡ false)
first_differ j a b hj ha hb same ne =
    let small = div_lt b (2 ^ (8 - j)) hb in
    let apart : upto j (bit_xor a b) ≢ 0 = λ z. ne (
      same_byte (upto j a) (upto j b) (div_lt a (2 ^ (7 - j)) ha) (div_lt b (2 ^ (7 - j)) hb)
        (sym (shift_xor (7 - j) a b ha hb) ∙ z)) in
    (
      first_bit_found j (bit_xor a b) hj (xor_row a b ha hb).2
          (shift_xor (8 - j) a b ha hb
            ∙ ap (λ x. bit_xor x (above j b)) same
            ∙ xor_self (above j b) small)
          apart,
      not_zero (bit_xor a b) (λ z. apart (ap (λ x. x / 2 ^ (7 - j)) z ∙ zero_over (7 - j))),
    )
