-- ===== src/Piece/Compare.antt =====
-- `operator-` and `operator>=` of BTPiece.cpp: comparing the pieces of two peers.
use benliud.Common.{
  ℕ, zero, suc, ◌+◌, ◌*◌, ◌/◌, ◌%◌, ◌≤◌, ◌<◌, ◌≡◌, ◌↔◌, refl, ap, Bool, true, false, ◌&&◌, not,
  arith, length, get_or, leb, le→leb, ◌==◌, ==_iff, Bool-cases, inl, inr,
}
use benliud.Common.Bytes.{all_below_complete}
use benliud.Piece.{BtPiece, is_set, minus, ge, count_below, bittable, test_bit, cells}
use benliud.Piece.Bits.{bittable_lem}
use benliud.Piece.Laws.{IsValid, byte_in_range}
use benliud.Piece.Fill.{is_set_lem}
use benliud.Piece.Count.{raw_bit, IsClean, count_below-le}

-- Every piece of the second set is in the first.
abbrev pub Covers : BtPiece → BtPiece → Type 0
Covers p q = (i : ℕ) → i < p.size → is_set q i ≡ true → is_set p i ≡ true

count_below_mono :
    (n : ℕ) (f g : ℕ → Bool)
    → ((i : ℕ) → i < n → f i ≡ true → g i ≡ true)
    → count_below n f ≤ count_below n g
unfolding count_below
count_below_mono zero f g h = omega arith
count_below_mono (suc n) f g h =
    ground (arith, h n (omega arith), count_below_mono n f g (λ i lt. h i (omega arith)))

count_below-zero : (n : ℕ) (f : ℕ → Bool) → (count_below n f ≡ 0) ↔ ((i : ℕ) → i < n → f i ≡ false)
unfolding count_below
count_below-zero zero f = (λ e i lt. absurd (omega arith), λ h. refl)
count_below-zero (suc n) f = (
  λ e i lt. elim (Bool-cases (i == n)) [
    | inl same ↦ let at : i ≡ n = (==_iff i n).0 same in rw at (ground arith)
    | inr other ↦ (count_below-zero n f).0 (ground arith) i (ground arith)
  ],
  λ h. ground (arith, h n (omega arith), (count_below-zero n f).1 (λ i lt. h i (omega arith))),
)

extra_bit :
    (p q : BtPiece) (i : ℕ)
    → ((is_set p i && not (is_set q i)) ≡ false) ↔ (is_set p i ≡ true → is_set q i ≡ true)
extra_bit p q i = ground arith

-- `operator-` between sets of one size is 0 exactly when the other set covers ours, and never
-- more than the number of pieces.
minus_lem :
    (p q : BtPiece) → p.size ≡ q.size → ((minus p q ≡ 0) ↔ Covers q p) × (minus p q ≤ p.size)
unfolding minus
minus_lem p q e = (
  (
    λ h i lt.
        (extra_bit p q i).0 ((count_below-zero p.size extra).0 (ground (arith, h)) i (omega arith)),
    λ c. ground (
      arith,
      (count_below-zero p.size extra).1 (λ i lt. (extra_bit p q i).1 (c i (omega arith))),
    ),
  ),
  ground (arith, count_below-le p.size extra),
)
  where
    extra : ℕ → Bool
    extra i = is_set p i && not (is_set q i)

-- One bit of the byte at index `k`.
bit_of_byte :
    (p : BtPiece) (k j : ℕ) → j < 8 → test_bit (get_or p.bytes k 0) j ≡ raw_bit p.bytes (k * 8 + j)
bit_of_byte p k j h =
    let q : (k * 8 + j) / 8 ≡ k = omega arith in
    let r : (k * 8 + j) % 8 ≡ j = omega arith in rw (q, r)

byte-Covers :
    (p q : BtPiece) (k j : ℕ)
    → IsValid q
    → IsClean q
    → p.size ≡ q.size
    → Covers p q
    → k < length q.bytes
    → j < 8
    → test_bit (get_or q.bytes k 0) j ≡ true
    → test_bit (get_or p.bytes k 0) j ≡ true
byte-Covers p q k j v c e cov hk hj on = ground (
  arith,
  bit_of_byte p k j hj,
  bit_of_byte q k j hj,
  cov (k * 8 + j),
  c.spare (k * 8 + j),
  is_set_lem p (k * 8 + j),
  is_set_lem q (k * 8 + j),
)

-- `operator>=` never misses a superset: where the first of two well-formed sets of one size covers
-- the second, whose spare bits are zero, it answers true.
ge_complete :
    (p q : BtPiece)
    → IsValid p
    → IsValid q
    → IsClean q
    → p.size ≡ q.size
    → Covers p q
    → ge p q ≡ true
unfolding ge
ge_complete p q v w c e cov = ground (
  arith,
  all_below_complete (length p.bytes)
      (λ i. leb (get_or bittable (get_or q.bytes i 0) 0) (get_or bittable (get_or p.bytes i 0) 0))
      rows,
)
  where
    same_length : (i : ℕ) → i < length p.bytes → i < length q.bytes
    same_length i lt = omega (arith, v.sized, w.sized, ap cells e)

    rows :
        (i : ℕ)
        → i < length p.bytes
        → leb (get_or bittable (get_or q.bytes i 0) 0) (get_or bittable (get_or p.bytes i 0) 0)
          ≡ true
    rows i lt =
        rw (bittable_lem _ (byte_in_range p i v), bittable_lem _ (byte_in_range q i w))
          (le→leb _ _ (
            count_below_mono 8 (test_bit (get_or q.bytes i 0)) (test_bit (get_or p.bytes i 0))
              (λ j hj. byte-Covers p q i j w c e cov (same_length i lt) hj)))
