-- ===== src/Piece/Laws.antt =====
-- The bitfield of BTPiece.cpp as an array of Booleans: which operations keep it well formed, and
-- what `IsSet` answers after each of them.
use benliud.Common.{
  ℕ, ◌+◌, ◌*◌, ◌/◌, ◌%◌, ◌≤◌, ◌<◌, ◌≡◌, refl, Bool, false, arith, List, length, get_or, All,
  length-set, length-replicate, get_or-replicate, get_or-set_self, get_or-set_ne, All-set,
  All-replicate, All-get_or, leb, ◌==◌, if◌then◌else◌, Bool-cases, inl, inr, ==_iff, ◌∙◌,
}
use benliud.Piece.{BtPiece, init, init_stream, is_set, set, cells, write_bit}
use benliud.Piece.Bits.{test_bit-zero, write_bit-lt, test_bit-write_bit}

-- As many bytes as `Init` allocates, each of them a byte.
pub record IsValid (p : BtPiece) : Type 0 where
  pub sized : length p.bytes ≡ cells p.size
  pub in_range : All (λ b. b < 256) p.bytes

pub cells_bounds : (n : ℕ) → (n ≤ cells n * 8) × (cells n * 8 < n + 8)
unfolding cells
cells_bounds n = ground arith

-- The byte that holds a bit of the set lies inside the string.
pub index_in_bounds : (p : BtPiece) (i : ℕ) → IsValid p → i < p.size → i / 8 < length p.bytes
index_in_bounds p i v h = omega (arith, cells_bounds p.size)

pub init-IsValid : (size : ℕ) → IsValid (init size)
unfolding init
init-IsValid size = record {
  sized = length-replicate (cells size) 0;
  in_range = All-replicate (λ b. b < 256) (cells size) 0 (omega arith);
}

pub init_stream-IsValid :
    (stream : List ℕ) (size : ℕ) → All (λ b. b < 256) stream → IsValid (init_stream stream size)
unfolding init_stream
init_stream-IsValid stream size h = elim (Bool-cases (length stream == cells size)) [
  | inl e ↦ rw e (record { sized = (==_iff _ _).0 e; in_range = h })
  | inr e ↦ rw e (init-IsValid size)
]

pub byte_in_range : (p : BtPiece) (k : ℕ) → IsValid p → get_or p.bytes k 0 < 256
byte_in_range p k v = All-get_or (λ b. b < 256) p.bytes k 0 v.in_range (omega arith)

pub set-IsValid : (p : BtPiece) (i : ℕ) (b : Bool) → IsValid p → IsValid (set p i b)
unfolding set
set-IsValid p i b v = elim (Bool-cases (leb p.size i)) [
  | inl e ↦ rw e v
  | inr e ↦ rw e (record {
    sized = length-set p.bytes (i / 8) _ ∙ v.sized;
    in_range =
        All-set (λ b. b < 256) p.bytes (i / 8) _ v.in_range
          (write_bit-lt _ (i % 8) b (byte_in_range p (i / 8) v) (omega arith));
  })
]

pub size-init : (size : ℕ) → (init size).size ≡ size
unfolding init
size-init size = refl

pub size-init_stream : (stream : List ℕ) (size : ℕ) → (init_stream stream size).size ≡ size
unfolding init_stream init
size-init_stream stream size = elim (Bool-cases (length stream == cells size)) [
  | inl e ↦ rw e refl
  | inr e ↦ rw e refl
]

pub size-set : (p : BtPiece) (i : ℕ) (b : Bool) → (set p i b).size ≡ p.size
unfolding set
size-set p i b = ground arith

-- The byte at index `k` after a `Set` in range.
pub byte-set :
    (p : BtPiece) (i k : ℕ) (b : Bool)
    → IsValid p
    → i < p.size
    → get_or (set p i b).bytes k 0
      ≡ (if i / 8 == k then write_bit (get_or p.bytes (i / 8) 0) (i % 8) b else get_or p.bytes k 0)
unfolding set
byte-set p i k b v h = ground (
  arith,
  index_in_bounds p i v h,
  get_or-set_self p.bytes (i / 8) (write_bit (get_or p.bytes (i / 8) 0) (i % 8) b) 0,
  get_or-set_ne p.bytes (i / 8) k (write_bit (get_or p.bytes (i / 8) 0) (i % 8) b) 0,
)

-- After `Set` at an index in range of a well-formed set, `IsSet` answers the new value there and
-- the old one at every other index.
pub is_set-set :
    (p : BtPiece) (i j : ℕ) (b : Bool)
    → IsValid p
    → i < p.size
    → is_set (set p i b) j ≡ (if i == j then b else is_set p j)
unfolding is_set
is_set-set p i j b v h = ground (
  arith,
  size-set p i b,
  byte-set p i (j / 8) b v h,
  test_bit-write_bit (get_or p.bytes (i / 8) 0) (i % 8) (j % 8) b (byte_in_range p (i / 8) v),
)

-- `Init(size)` clears every bit.
pub is_set-init : (size i : ℕ) → i < size → is_set (init size) i ≡ false
unfolding is_set init
is_set-init size i h = ground (
  arith,
  test_bit-zero (i % 8) (omega arith),
  get_or-replicate {A = ℕ} (cells size) (i / 8) 0 0,
  cells_bounds size,
)
