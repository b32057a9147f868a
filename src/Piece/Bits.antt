-- ===== src/Piece/Bits.antt =====
-- The bit operations of BTPiece.cpp on one byte, checked at every byte.
use benliud.Common.{
  ℕ, ◌<◌, ◌≡◌, refl, ◌&&◌, Bool, true, false, arith, get_or, ltb, ◌==◌, ==_iff, if◌then◌else◌, same,
  same_lem, &&-eq-true, not,
}
use benliud.Common.Bytes.{all_below, all_below_sound, all_below₂_sound}
use benliud.Piece.{bittable, test_bit, write_bit, count_below}

write_table :
    (v : Bool)
    → all_below 256 (λ x. all_below 8 (λ i.
      ltb (write_bit x i v) 256
      && all_below 8
          (λ j. same (test_bit (write_bit x i v) j) (if i == j then v else test_bit x j))))
      ≡ true
unfolding all_below test_bit write_bit
write_table true = refl
write_table false = refl

write_row :
    (v : Bool) (x i : ℕ)
    → x < 256
    → i < 8
    → (ltb (write_bit x i v) 256
        && all_below 8
            (λ j. same (test_bit (write_bit x i v) j) (if i == j then v else test_bit x j)))
      ≡ true
write_row v x i hx hi = all_below₂_sound 256 8 _ x i (write_table v) hx hi

-- A written bit is a byte again.
pub write_bit-lt : (x i : ℕ) (v : Bool) → x < 256 → i < 8 → write_bit x i v < 256
write_bit-lt x i v hx hi = ground (arith, write_row v x i hx hi)

-- Writing one bit changes that bit and no other.
pub test_bit-write_bit :
    (x i j : ℕ) (v : Bool)
    → x < 256
    → i < 8
    → j < 8
    → test_bit (write_bit x i v) j ≡ (if i == j then v else test_bit x j)
test_bit-write_bit x i j v hx hi hj = same_lem _ _ (
    all_below_sound 8
      (λ k. same (test_bit (write_bit x i v) k) (if i == k then v else test_bit x k)) j
      ((&&-eq-true _ _).0 (write_row v x i hx hi)).1 hj)

bittable_table : all_below 256 (λ x. get_or bittable x 0 == count_below 8 (test_bit x)) ≡ true
unfolding all_below test_bit count_below
bittable_table = refl

-- The table holds the number of one bits of each byte.
pub bittable_lem : (x : ℕ) → x < 256 → get_or bittable x 0 ≡ count_below 8 (test_bit x)
bittable_lem x hx = (==_iff _ _).0 (all_below_sound 256 _ x bittable_table hx)

full_table : all_below 256 (λ x. same (x == 255) (all_below 8 (test_bit x))) ≡ true
unfolding all_below test_bit
full_table = refl

-- 0xFF is the byte with all bits set.
pub full_byte : (x : ℕ) → x < 256 → (x == 255) ≡ all_below 8 (test_bit x)
full_byte x hx = same_lem _ _ (all_below_sound 256 _ x full_table hx)

pub test_bit-zero : (j : ℕ) → j < 8 → test_bit 0 j ≡ false
unfolding all_below test_bit
test_bit-zero j h = ground (arith, all_below_sound 8 (λ k. not (test_bit 0 k)) j refl h)
