-- ===== src/Piece/Fill.antt =====
-- `IsAllSet`, `IsEmpty` and `SetAll` of BTPiece.cpp against the single bits.
use benliud.Common.{
  ℕ, zero, suc, ◌+◌, ◌-◌, ◌*◌, ◌/◌, ◌%◌, ◌≤◌, ◌<◌, ◌≡◌, ◌↔◌, refl, ◌∙◌, true, false, ◌&&◌, ◌||◌,
  arith, List, length, get_or, All, length-set, get_or-set_self, get_or-set_ne, All-set, leb, ltb,
  ◌==◌, if◌then◌else◌, Bool-cases, inl, inr, ==_iff,
}
use benliud.Common.Bytes.{all_below, all_below_sound, all_below_complete}
use benliud.Piece.{BtPiece, is_set, is_all_set, is_empty, set_all, fill_bytes, set_range, test_bit}
use benliud.Piece.Bits.{full_byte, test_bit-zero}
use benliud.Piece.Laws.{
  IsValid, cells_bounds, index_in_bounds, set-IsValid, size-set, is_set-set, byte_in_range,
}

pub is_set_lem :
    (p : BtPiece) (i : ℕ) → i < p.size → is_set p i ≡ test_bit (get_or p.bytes (i / 8) 0) (i % 8)
unfolding is_set
is_set_lem p i h = ground arith

beyond : (p : BtPiece) (i : ℕ) → p.size ≤ i → is_set p i ≡ true
unfolding is_set
beyond p i h = ground arith

split_index : (k j : ℕ) → j < 8 → ((k * 8 + j) / 8 ≡ k) × ((k * 8 + j) % 8 ≡ j)
split_index k j h = omega arith

leb-lt : (a b : ℕ) → leb a b ≡ false → b < a
leb-lt a b h = ground arith

full_bit : (j : ℕ) → j < 8 → test_bit 255 j ≡ true
unfolding all_below test_bit
full_bit j h = all_below_sound 8 (test_bit 255) j refl h

-- What `IsAllSet` tests, read at one index.
is_all_set_sound :
    (p : BtPiece) (i : ℕ) → IsValid p → is_all_set p ≡ true → i < p.size → is_set p i ≡ true
unfolding is_all_set
is_all_set_sound p i v all h = elim (Bool-cases (ltb (i / 8) (length p.bytes - 1))) [
  | inl e ↦
      is_set_lem p i h
      ∙ all_below_sound 8 (test_bit (get_or p.bytes (i / 8) 0)) (i % 8)
          (ground (
            arith,
            full_byte (get_or p.bytes (i / 8) 0) (byte_in_range p (i / 8) v),
            all_below_sound (length p.bytes - 1) (λ k. get_or p.bytes k 0 == 255) (i / 8),
          ))
          (omega arith)
  | inr e ↦
      is_set_lem p i h
      ∙ ground (
        arith,
        index_in_bounds p i v h,
        all_below_sound (p.size - (length p.bytes - 1) * 8)
            (λ j. test_bit (get_or p.bytes (length p.bytes - 1) 0) j) (i % 8),
      )
]

full_of_bits :
    (p : BtPiece) (k : ℕ)
    → IsValid p
    → ((i : ℕ) → is_set p i ≡ true)
    → k * 8 + 8 ≤ p.size
    → (get_or p.bytes k 0 == 255) ≡ true
full_of_bits p k v all h =
    full_byte _ (byte_in_range p k v)
    ∙ all_below_complete 8 (test_bit (get_or p.bytes k 0)) λ j lt.
      ground (arith, all (k * 8 + j), is_set_lem p (k * 8 + j) (omega arith), split_index k j lt)

-- The bits of the last byte that stand for pieces.
last_bit :
    (p : BtPiece) (j : ℕ)
    → IsValid p
    → ((i : ℕ) → is_set p i ≡ true)
    → j < p.size - (length p.bytes - 1) * 8
    → test_bit (get_or p.bytes (length p.bytes - 1) 0) j ≡ true
last_bit p j v all lt = ground (
  arith,
  v.sized,
  cells_bounds p.size,
  all ((length p.bytes - 1) * 8 + j),
  is_set_lem p ((length p.bytes - 1) * 8 + j) (omega arith),
  split_index (length p.bytes - 1) j (omega (arith, v.sized, cells_bounds p.size)),
)

is_all_set_complete :
    (p : BtPiece) → IsValid p → 0 < p.size → ((i : ℕ) → is_set p i ≡ true) → is_all_set p ≡ true
unfolding is_all_set
is_all_set_complete p v h all = ground (
  arith,
  v.sized,
  cells_bounds p.size,
  all_below_complete (length p.bytes - 1) (λ k. get_or p.bytes k 0 == 255)
      (λ k lt. full_of_bits p k v all (omega (arith, v.sized, cells_bounds p.size))),
  all_below_complete (p.size - (length p.bytes - 1) * 8)
      (λ j. test_bit (get_or p.bytes (length p.bytes - 1) 0) j) (λ j lt. last_bit p j v all lt),
)

-- On a well-formed set of one piece or more, `IsAllSet` is true exactly when `IsSet` is true at
-- every index in range.
is_all_set_iff :
    (p : BtPiece)
    → IsValid p
    → 0 < p.size
    → (is_all_set p ≡ true) ↔ ((i : ℕ) → i < p.size → is_set p i ≡ true)
is_all_set_iff p v h =
    (λ all i lt. is_all_set_sound p i v all lt, λ all. is_all_set_complete p v h (λ i. every i all))
  where
    every : (i : ℕ) → ((k : ℕ) → k < p.size → is_set p k ≡ true) → is_set p i ≡ true
    every i all = elim (Bool-cases (leb p.size i)) [
      | inl e ↦ beyond p i (ground arith)
      | inr e ↦ all i (ground arith)
    ]

length-fill_bytes : (n : ℕ) (bs : List ℕ) → length (fill_bytes n bs) ≡ length bs
unfolding fill_bytes
length-fill_bytes zero bs = refl
length-fill_bytes (suc n) bs = length-set (fill_bytes n bs) n 255 ∙ length-fill_bytes n bs

get_or-fill_bytes :
    (n k : ℕ) (bs : List ℕ)
    → n ≤ length bs
    → get_or (fill_bytes n bs) k 0 ≡ (if ltb k n then 255 else get_or bs k 0)
unfolding fill_bytes
get_or-fill_bytes zero k bs h = ground arith
get_or-fill_bytes (suc n) k bs h = ground (
  arith,
  length-fill_bytes n bs,
  get_or-fill_bytes n k bs (omega arith),
  get_or-set_self (fill_bytes n bs) n 255 0,
  get_or-set_ne (fill_bytes n bs) n k 255 0,
)

All-fill_bytes :
    (n : ℕ) (bs : List ℕ) → All (λ b. b < 256) bs → All (λ b. b < 256) (fill_bytes n bs)
unfolding fill_bytes
All-fill_bytes zero bs h = h
All-fill_bytes (suc n) bs h =
    All-set (λ b. b < 256) (fill_bytes n bs) n 255 (All-fill_bytes n bs h) (omega arith)

-- The pieces after the first loop of `SetAll`.
abbrev filled : BtPiece → BtPiece
filled p = record p { bytes = fill_bytes (p.size / 8) p.bytes }

filled-IsValid : (p : BtPiece) → IsValid p → IsValid (filled p)
filled-IsValid p v = record {
  sized = length-fill_bytes (p.size / 8) p.bytes ∙ v.sized;
  in_range = All-fill_bytes (p.size / 8) p.bytes v.in_range;
}

is_set-filled : (p : BtPiece) (i : ℕ) → IsValid p → i / 8 < p.size / 8 → is_set (filled p) i ≡ true
is_set-filled p i v h =
    is_set_lem (filled p) i (omega arith)
    ∙ ground (
      arith,
      v.sized,
      cells_bounds p.size,
      get_or-fill_bytes (p.size / 8) (i / 8) p.bytes (omega (arith, v.sized, cells_bounds p.size)),
      full_bit (i % 8) (omega arith),
    )

size-set_range : (n begin : ℕ) (p : BtPiece) → (set_range n begin p).size ≡ p.size
unfolding set_range
size-set_range zero begin p = refl
size-set_range (suc n) begin p =
    size-set (set_range n begin p) (begin + n) true ∙ size-set_range n begin p

set_range-IsValid : (n begin : ℕ) (p : BtPiece) → IsValid p → IsValid (set_range n begin p)
unfolding set_range
set_range-IsValid zero begin p v = v
set_range-IsValid (suc n) begin p v =
    set-IsValid (set_range n begin p) (begin + n) true (set_range-IsValid n begin p v)

is_set-set_range :
    (n begin i : ℕ) (p : BtPiece)
    → IsValid p
    → begin + n ≤ p.size
    → is_set (set_range n begin p) i ≡ (leb begin i && ltb i (begin + n) || is_set p i)
unfolding set_range
is_set-set_range zero begin i p v h = ground arith
is_set-set_range (suc n) begin i p v h = ground (
  arith,
  size-set_range n begin p,
  is_set-set (set_range n begin p) (begin + n) i true (set_range-IsValid n begin p v)
      (omega (arith, size-set_range n begin p)),
  is_set-set_range n begin i p v (omega arith),
)

-- `SetAll` keeps a well-formed set well formed and of the same size, and afterwards `IsSet` is true
-- everywhere.
pub set_all_lem :
    (p : BtPiece)
    → IsValid p
    → IsValid (set_all p) × ((set_all p).size ≡ p.size) × ((i : ℕ) → is_set (set_all p) i ≡ true)
unfolding set_all
set_all_lem p v = elim (Bool-cases (p.size % 8 == 0)) [
  | inl e ↦ rw e (filled-IsValid p v, refl, λ i. whole i ((==_iff _ _).0 e))
  | inr e ↦
      rw e
        (set_range-IsValid _ _ _ (filled-IsValid p v), size-set_range _ _ (filled p), λ i. part i)
]
  where
    whole : (i : ℕ) → p.size % 8 ≡ 0 → is_set (filled p) i ≡ true
    whole i e = elim (Bool-cases (leb p.size i)) [
      | inl out ↦ beyond (filled p) i (ground arith)
      | inr inside ↦ is_set-filled p i v (omega (arith, leb-lt p.size i inside))
    ]

    part : (i : ℕ) → is_set (set_range (p.size % 8) (p.size - p.size % 8) (filled p)) i ≡ true
    part i = elim (Bool-cases (leb p.size i)) [
      | inl out ↦ beyond _ i (rw size-set_range (ground arith))
      | inr inside ↦
          is_set-set_range (p.size % 8) (p.size - p.size % 8) i (filled p) (filled-IsValid p v)
            (omega arith)
          ∙ ground (arith, is_set-filled p i v)
    ]

-- `IsEmpty` finds no bit: where it is true, `IsSet` is false at every index in range.
is_empty_sound :
    (p : BtPiece) (i : ℕ) → IsValid p → is_empty p ≡ true → i < p.size → is_set p i ≡ false
unfolding is_empty
is_empty_sound p i v all h =
    is_set_lem p i h
    ∙ ground (
      arith,
      index_in_bounds p i v h,
      all_below_sound (length p.bytes) (λ k. get_or p.bytes k 0 == 0) (i / 8) all,
      test_bit-zero (i % 8) (omega arith),
    )
