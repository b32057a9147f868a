-- ===== src/Piece.antt =====
-- benliud_bt/src/BTPiece.cpp: the set of pieces that a peer holds, one bit for each piece, most
-- significant bit first, as the BitTorrent bitfield message carries it.
pub mod Bits
pub mod Laws
pub mod Count
pub mod Fill
pub mod Compare
mod Tests
use benliud.Common.{
  ℕ, zero, suc, ◌+◌, ◌-◌, ◌*◌, ◌/◌, ◌%◌, ◌^◌, bit_and, bit_or, Bool, true, false, not, ◌&&◌, List,
  [], ◌∷◌, length, get_or, replicate, ltb, leb, ◌==◌, if◌then◌else◌, bit,
}
use benliud.Common.{set as put_byte}
use benliud.Common.Bytes.{all_below}

-- `bittable`: the number of one bits of each byte.
abbrev pub bittable : List ℕ
bittable =
    0 ∷ 1 ∷ 1 ∷ 2 ∷ 1 ∷ 2 ∷ 2 ∷ 3 ∷ 1 ∷ 2 ∷ 2 ∷ 3 ∷ 2 ∷ 3 ∷ 3 ∷ 4 ∷ 1 ∷ 2 ∷ 2 ∷ 3 ∷ 2 ∷ 3 ∷ 3 ∷ 4
    ∷ 2 ∷ 3 ∷ 3 ∷ 4 ∷ 3 ∷ 4 ∷ 4 ∷ 5 ∷ 1 ∷ 2 ∷ 2 ∷ 3 ∷ 2 ∷ 3 ∷ 3 ∷ 4 ∷ 2 ∷ 3 ∷ 3 ∷ 4 ∷ 3 ∷ 4 ∷ 4 ∷ 5
    ∷ 2 ∷ 3 ∷ 3 ∷ 4 ∷ 3 ∷ 4 ∷ 4 ∷ 5 ∷ 3 ∷ 4 ∷ 4 ∷ 5 ∷ 4 ∷ 5 ∷ 5 ∷ 6 ∷ 1 ∷ 2 ∷ 2 ∷ 3 ∷ 2 ∷ 3 ∷ 3 ∷ 4
    ∷ 2 ∷ 3 ∷ 3 ∷ 4 ∷ 3 ∷ 4 ∷ 4 ∷ 5 ∷ 2 ∷ 3 ∷ 3 ∷ 4 ∷ 3 ∷ 4 ∷ 4 ∷ 5 ∷ 3 ∷ 4 ∷ 4 ∷ 5 ∷ 4 ∷ 5 ∷ 5 ∷ 6
    ∷ 2 ∷ 3 ∷ 3 ∷ 4 ∷ 3 ∷ 4 ∷ 4 ∷ 5 ∷ 3 ∷ 4 ∷ 4 ∷ 5 ∷ 4 ∷ 5 ∷ 5 ∷ 6 ∷ 3 ∷ 4 ∷ 4 ∷ 5 ∷ 4 ∷ 5 ∷ 5 ∷ 6
    ∷ 4 ∷ 5 ∷ 5 ∷ 6 ∷ 5 ∷ 6 ∷ 6 ∷ 7 ∷ 1 ∷ 2 ∷ 2 ∷ 3 ∷ 2 ∷ 3 ∷ 3 ∷ 4 ∷ 2 ∷ 3 ∷ 3 ∷ 4 ∷ 3 ∷ 4 ∷ 4 ∷ 5
    ∷ 2 ∷ 3 ∷ 3 ∷ 4 ∷ 3 ∷ 4 ∷ 4 ∷ 5 ∷ 3 ∷ 4 ∷ 4 ∷ 5 ∷ 4 ∷ 5 ∷ 5 ∷ 6 ∷ 2 ∷ 3 ∷ 3 ∷ 4 ∷ 3 ∷ 4 ∷ 4 ∷ 5
    ∷ 3 ∷ 4 ∷ 4 ∷ 5 ∷ 4 ∷ 5 ∷ 5 ∷ 6 ∷ 3 ∷ 4 ∷ 4 ∷ 5 ∷ 4 ∷ 5 ∷ 5 ∷ 6 ∷ 4 ∷ 5 ∷ 5 ∷ 6 ∷ 5 ∷ 6 ∷ 6 ∷ 7
    ∷ 2 ∷ 3 ∷ 3 ∷ 4 ∷ 3 ∷ 4 ∷ 4 ∷ 5 ∷ 3 ∷ 4 ∷ 4 ∷ 5 ∷ 4 ∷ 5 ∷ 5 ∷ 6 ∷ 3 ∷ 4 ∷ 4 ∷ 5 ∷ 4 ∷ 5 ∷ 5 ∷ 6
    ∷ 4 ∷ 5 ∷ 5 ∷ 6 ∷ 5 ∷ 6 ∷ 6 ∷ 7 ∷ 3 ∷ 4 ∷ 4 ∷ 5 ∷ 4 ∷ 5 ∷ 5 ∷ 6 ∷ 4 ∷ 5 ∷ 5 ∷ 6 ∷ 5 ∷ 6 ∷ 6 ∷ 7
    ∷ 4 ∷ 5 ∷ 5 ∷ 6 ∷ 5 ∷ 6 ∷ 6 ∷ 7 ∷ 5 ∷ 6 ∷ 6 ∷ 7 ∷ 6 ∷ 7 ∷ 7 ∷ 8 ∷ []

-- `CBTPiece`: `m_size` and the bytes of `m_data`.
pub record BtPiece : Type 0 where
  pub size : ℕ
  pub bytes : List ℕ

-- `0x80 >> i`
abbrev pub mask : ℕ → ℕ
mask i = 128 / 2 ^ i

-- `(b & mask) != 0`
unfoldable pub test_bit : ℕ → ℕ → Bool
test_bit b i = not (bit_and b (mask i) == 0)

-- `b | mask`, or `b & ~mask` on an `unsigned char`
unfoldable pub write_bit : ℕ → ℕ → Bool → ℕ
write_bit b i v = if v then bit_or b (mask i) else bit_and b (255 - mask i)

-- The number of bytes that `Init` gives to `size` bits.
unfoldable pub cells : ℕ → ℕ
cells size = if size % 8 == 0 then size / 8 else size / 8 + 1

-- `Init(size)`
unfoldable pub init : ℕ → BtPiece
init size = record { size = size; bytes = replicate (cells size) 0 }

-- `Init(stream, size)`, with the assertion compiled out: a stream of the wrong length is dropped.
pub init_stream : List ℕ → ℕ → BtPiece
init_stream stream size =
    if length stream == cells size then record { size = size; bytes = stream } else init size

-- `IsSet`: an index out of range counts as set.
unfoldable pub is_set : BtPiece → ℕ → Bool
is_set p i = if leb p.size i then true else test_bit (get_or p.bytes (i / 8) 0) (i % 8)

-- `Set`: an index out of range is ignored.
unfoldable pub set : BtPiece → ℕ → Bool → BtPiece
set p i v = if leb p.size i then p else record p {
  bytes = put_byte p.bytes (i / 8) (write_bit (get_or p.bytes (i / 8) 0) (i % 8) v);
}

-- `IsAllSet`. With no bytes the unsigned `m_data.size() - 1` wraps, and the first byte read is the
-- terminator of the empty string, which is not 0xFF.
pub is_all_set : BtPiece → Bool
is_all_set p =
    if length p.bytes == 0
    then false
    else all_below (length p.bytes - 1) (λ i. get_or p.bytes i 0 == 255)
      && all_below (p.size - (length p.bytes - 1) * 8)
          (λ j. test_bit (get_or p.bytes (length p.bytes - 1) 0) j)

-- `IsEmpty`
pub is_empty : BtPiece → Bool
is_empty p = all_below (length p.bytes) (λ i. get_or p.bytes i 0 == 0)

-- The loop of `GetSetedCount` before its `unsigned int` wraps.
pub sum_bits : List ℕ → ℕ
sum_bits [] = 0
sum_bits (b ∷ bs) = get_or bittable b 0 + sum_bits bs

-- `GetSetedCount`
pub get_seted_count : BtPiece → ℕ
get_seted_count p = sum_bits p.bytes % 2 ^ 32

-- The first loop of `SetAll`: the first `n` bytes become 0xFF.
pub fill_bytes : ℕ → List ℕ → List ℕ
fill_bytes zero bs = bs
fill_bytes (suc n) bs = put_byte (fill_bytes n bs) n 255

-- The second loop of `SetAll`: `n` bits from index `begin` on.
pub set_range : ℕ → ℕ → BtPiece → BtPiece
set_range zero begin p = p
set_range (suc n) begin p = set (set_range n begin p) (begin + n) true

-- `SetAll`
pub set_all : BtPiece → BtPiece
set_all p =
    let filled = record p { bytes = fill_bytes (p.size / 8) p.bytes } in
    if p.size % 8 == 0 then filled else set_range (p.size % 8) (p.size - p.size % 8) filled

-- How many indices below `n` pass the test.
unfoldable pub count_below : ℕ → (ℕ → Bool) → ℕ
count_below zero f = 0
count_below (suc n) f = count_below n f + bit (f n)

-- `operator-`: how many pieces we have that the other has not.
pub minus : BtPiece → BtPiece → ℕ
minus p q = if p.size == q.size then count_below p.size (λ i. is_set p i && not (is_set q i)) else 0

-- `operator>=`: byte by byte, at least as many one bits as the other.
pub ge : BtPiece → BtPiece → Bool
ge p q =
    p.size == q.size
    && all_below (length p.bytes)
        (λ i. leb (get_or bittable (get_or q.bytes i 0) 0) (get_or bittable (get_or p.bytes i 0) 0))
