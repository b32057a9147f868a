-- ===== src/Piece/Count.antt =====
-- `GetSetedCount` of BTPiece.cpp, a sum over bytes by table, against counting single bits.
use benliud.Common.{
  ℕ, zero, suc, ◌+◌, ◌-◌, ◌*◌, ◌/◌, ◌%◌, ◌^◌, ◌≤◌, ◌<◌, ◌≡◌, refl, ap, Bool, false, arith, List, [],
  ◌∷◌, length, get_or, All, ltb, Bool-cases, inl, inr, get_or-replicate, length-replicate,
  length-set,
}
use benliud.Piece.{
  BtPiece, init, is_set, set, sum_bits, get_seted_count, count_below, test_bit, write_bit, cells,
}
use benliud.Piece.Bits.{bittable_lem, test_bit-zero, test_bit-write_bit}
use benliud.Piece.Laws.{IsValid, cells_bounds, byte_in_range, byte-set, size-set}
use benliud.Piece.Fill.{is_set_lem}

-- Bit `i` of the whole string, spare bits included.
abbrev pub raw_bit : List ℕ → ℕ → Bool
raw_bit bs i = test_bit (get_or bs (i / 8) 0) (i % 8)

-- The bits beyond the last piece are zero.
pub record IsClean (p : BtPiece) : Type 0 where
  pub spare : (i : ℕ) → p.size ≤ i → i < length p.bytes * 8 → raw_bit p.bytes i ≡ false

count_below-add :
    (n m : ℕ) (f : ℕ → Bool)
    → count_below (n + m) f ≡ count_below n f + count_below m (λ i. f (n + i))
unfolding count_below
count_below-add n zero f =
    ground (arith, ap (λ (k : ℕ). count_below k f) {x = n + 0} {y = n} (omega arith))
count_below-add n (suc m) f = ground (
  arith,
  count_below-add n m f,
  ap (λ (k : ℕ). count_below k f) {x = n + suc m} {y = suc (n + m)} (omega arith),
)

count_below-ext :
    (n : ℕ) (f g : ℕ → Bool) → ((i : ℕ) → i < n → f i ≡ g i) → count_below n f ≡ count_below n g
unfolding count_below
count_below-ext zero f g h = refl
count_below-ext (suc n) f g h =
    ground (arith, h n (omega arith), count_below-ext n f g (λ i lt. h i (omega arith)))

pub count_below-le : (n : ℕ) (f : ℕ → Bool) → count_below n f ≤ n
unfolding count_below
count_below-le zero f = omega arith
count_below-le (suc n) f = ground (arith, count_below-le n f)

count_below-false : (n : ℕ) (f : ℕ → Bool) → ((i : ℕ) → i < n → f i ≡ false) → count_below n f ≡ 0
unfolding count_below
count_below-false zero f h = refl
count_below-false (suc n) f h =
    ground (arith, h n (omega arith), count_below-false n f (λ i lt. h i (omega arith)))

raw_bit-head : (b : ℕ) (bs : List ℕ) (i : ℕ) → i < 8 → raw_bit (b ∷ bs) i ≡ test_bit b i
raw_bit-head b bs i h =
    let q : i / 8 ≡ 0 = omega arith in let r : i % 8 ≡ i = omega arith in rw (q, r)

raw_bit-tail : (b : ℕ) (bs : List ℕ) (i : ℕ) → raw_bit (b ∷ bs) (8 + i) ≡ raw_bit bs i
raw_bit-tail b bs i =
    let q : (8 + i) / 8 ≡ suc (i / 8) = omega arith in
    let r : (8 + i) % 8 ≡ i % 8 = omega arith in rw (q, r)

-- The table sum counts the bits of the string.
sum_bits-count :
    (bs : List ℕ) → All (λ b. b < 256) bs → sum_bits bs ≡ count_below (length bs * 8) (raw_bit bs)
unfolding sum_bits count_below
sum_bits-count [] h = refl
sum_bits-count (b ∷ bs) h = ground (
  arith,
  bittable_lem b h.0,
  sum_bits-count bs h.1,
  count_below-add 8 (length bs * 8) (raw_bit (b ∷ bs)),
  count_below-ext 8 (raw_bit (b ∷ bs)) (test_bit b) (raw_bit-head b bs),
  count_below-ext (length bs * 8) (λ i. raw_bit (b ∷ bs) (8 + i)) (raw_bit bs)
      (λ i lt. raw_bit-tail b bs i),
  ap (λ (k : ℕ). count_below k (raw_bit (b ∷ bs))) {x = suc (length bs) * 8} {y = 8 + length bs * 8}
      (omega arith),
)

-- On a well-formed set of fewer than 2 ^ 32 pieces whose spare bits are zero, `GetSetedCount` is
-- the number of pieces that `IsSet` reports, so it is at most the number of pieces.
pub get_seted_count_lem :
    (p : BtPiece)
    → IsValid p
    → IsClean p
    → p.size < 2 ^ 32
    → (get_seted_count p ≡ count_below p.size (is_set p)) × (get_seted_count p ≤ p.size)
unfolding get_seted_count
get_seted_count_lem p v c h = ground (arith, counted, count_below-le p.size (is_set p))
  where
    counted : sum_bits p.bytes ≡ count_below p.size (is_set p)
    counted = ground (
      arith,
      v.sized,
      cells_bounds p.size,
      sum_bits-count p.bytes v.in_range,
      count_below-add p.size (length p.bytes * 8 - p.size) (raw_bit p.bytes),
      ap (λ (k : ℕ). count_below k (raw_bit p.bytes)) {x = p.size + (length p.bytes * 8 - p.size)}
          {y = length p.bytes * 8} (omega (arith, v.sized, cells_bounds p.size)),
      count_below-false (length p.bytes * 8 - p.size) (λ i. raw_bit p.bytes (p.size + i))
          (λ i lt. c.spare (p.size + i) (omega arith) (omega arith)),
      count_below-ext p.size (is_set p) (raw_bit p.bytes) (λ i lt. is_set_lem p i lt),
    )

-- `Init(size)` leaves the spare bits zero, and `Set` never touches them.
pub init-IsClean : (size : ℕ) → IsClean (init size)
unfolding init
init-IsClean size = record {
  spare = λ i ge lt. ground (
    arith,
    length-replicate {A = ℕ} (cells size) 0,
    get_or-replicate {A = ℕ} (cells size) (i / 8) 0 0,
    test_bit-zero (i % 8) (omega arith),
  );
}

length-bytes-set : (p : BtPiece) (i : ℕ) (b : Bool) → length (set p i b).bytes ≡ length p.bytes
unfolding set
length-bytes-set p i b =
    ground (arith, length-set p.bytes (i / 8) (write_bit (get_or p.bytes (i / 8) 0) (i % 8) b))

set_outside : (p : BtPiece) (i : ℕ) (b : Bool) → p.size ≤ i → set p i b ≡ p
unfolding set
set_outside p i b h = ground arith

pub set-IsClean : (p : BtPiece) (i : ℕ) (b : Bool) → IsValid p → IsClean p → IsClean (set p i b)
set-IsClean p i b v c = elim (Bool-cases (ltb i p.size)) [
  | inl inside ↦ record {
    spare = λ k ge lt. ground (
      arith,
      size-set p i b,
      length-bytes-set p i b,
      c.spare k,
      byte-set p i (k / 8) b v (ground arith),
      test_bit-write_bit (get_or p.bytes (i / 8) 0) (i % 8) (k % 8) b (byte_in_range p (i / 8) v),
    );
  }
  | inr outside ↦ rw (set_outside p i b (ground arith)) c
]
