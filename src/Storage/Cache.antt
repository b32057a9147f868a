-- ===== src/Storage/Cache.antt =====
-- benliud_bt/src/BTStorage.cpp: how data of pieces is read for other peers, from the blocks that were
-- read before, from the pieces at the edges of files, from those that wait for the disk, or from the
-- disk.
pub mod Slices
pub mod Served
pub mod Reads
pub mod Wrapping
mod Tests
use benliud.Common.{
  ℕ, zero, suc, ◌+◌, ◌-◌, ◌*◌, ◌/◌, ◌%◌, ◌^◌, Bool, true, false, ◌&&◌, List, [], ◌∷◌, ◌++◌, Option,
  none, some, length, take, drop, ltb, leb, ◌==◌, if◌then◌else◌,
}
use benliud.Common.Search.{find_first, remove_first}
use benliud.Storage.Depot.{PieceMap, find_piece}
use benliud.Storage.Files.{StorageFile, Io, head_index, get_piece_length, read_data_from_disk}

-- `TBufferBlock`
pub record BufferBlock : Type 0 where
  pub p_index : ℕ
  pub offset : ℕ
  pub bytes : List ℕ

-- `BUFFER_BLOCK_SIZE`
abbrev pub buffer_block_size : ℕ
buffer_block_size = 131072

-- The torrent's sizes and files, and the members of the storage that a read does not change; `io` is how
-- a transfer at a position ends.
pub record Disk : Type 0 where
  pub piece_length : ℕ
  pub total : ℕ
  pub count : ℕ
  pub io : ℕ → Io
  pub files : List StorageFile
  pub edge_cache : PieceMap (List ℕ)
  pub write_cache : PieceMap (List ℕ)
  pub cache_size : ℕ

-- `IsEdgePiece`
unfoldable pub is_edge_piece : ℕ → List StorageFile → ℕ → Bool
is_edge_piece piece_length [] index = false
is_edge_piece piece_length (f ∷ fs) index =
    if head_index piece_length f == index then true else is_edge_piece piece_length fs index

-- `GetReadCacheSize`
unfoldable pub get_read_cache_size : Disk → ℕ
get_read_cache_size d = d.cache_size / buffer_block_size

-- The block has the data.
unfoldable pub has_data : ℕ → ℕ → ℕ → BufferBlock → Bool
has_data index offset len b =
    b.p_index == index
    && (leb b.offset offset && leb ((offset + len) % 2 ^ 32) ((b.offset + length b.bytes) % 2 ^ 32))

-- How a read ends; `std::string::substr` throws from behind the end of the string on.
pub data ReadResult : Type 0 where
  gives : (bytes : List ℕ) → ReadResult
  fails throws : ReadResult

unfoldable pub substr : List ℕ → ℕ → ℕ → ReadResult
substr bytes offset len =
    if ltb (length bytes) offset then throws else gives (take len (drop offset bytes))

unfoldable pub find_substr : PieceMap (List ℕ) → ℕ → ℕ → ℕ → Option ReadResult
find_substr m index offset len = elim (find_piece index m) [
  | none ↦ none
  | some bytes ↦ some (substr bytes offset len)
]

-- `ReadDataFromCache` behind the loop over `m_ReadBufferList`.
unfoldable pub read_waiting : Disk → ℕ → ℕ → ℕ → Option ReadResult
read_waiting d index offset len =
    if is_edge_piece d.piece_length d.files index
    then elim (find_substr d.edge_cache index offset len) [
      | some x ↦ some x
      | none ↦ find_substr d.write_cache index offset len
    ]
    else find_substr d.write_cache index offset len

-- `ReadDataFromCache`, with `m_ReadBufferList`; `none` is its `false`.
unfoldable pub read_data_from_cache :
    Disk → List BufferBlock → ℕ → ℕ → ℕ → List BufferBlock × Option ReadResult
read_data_from_cache d bs index offset len = elim (find_first (has_data index offset len) bs) [
  | some b ↦ (
    remove_first (has_data index offset len) bs ++ b ∷ [],
    some (substr b.bytes (offset - b.offset) len),
  )
  | none ↦ (bs, read_waiting d index offset len)
]

-- The loop of `ReadData` that cuts what the disk gave into blocks, from block `i` on, with fuel for the
-- rounds.
unfoldable pub blocks_of : ℕ → ℕ → ℕ → ℕ → List ℕ → List BufferBlock
blocks_of zero index offset i bytes = []
blocks_of (suc fuel) index offset i bytes =
    let at = (offset + i * buffer_block_size) % 2 ^ 32 in
    let rest = blocks_of fuel index offset (i + 1) (drop buffer_block_size bytes) in
    if length bytes == 0
    then []
    else if leb buffer_block_size (length bytes)
    then record { p_index = index; offset = at; bytes = take buffer_block_size bytes } ∷ rest
    else record { p_index = index; offset = at; bytes = bytes } ∷ []

-- The loop that takes blocks off the front.
unfoldable pub pop_over : ℕ → List BufferBlock → List BufferBlock
pop_over limit [] = []
pop_over limit (b ∷ bs) =
    let rest = pop_over limit bs in if ltb limit (length (b ∷ bs)) then rest else b ∷ bs

-- `readlen`
unfoldable pub read_length : Disk → ℕ → ℕ → ℕ
read_length d index offset =
    let left = (get_piece_length d.piece_length d.total d.count index + 2 ^ 32 - offset) % 2 ^ 32 in
    if ltb left (2 * buffer_block_size) then left else 2 * buffer_block_size

-- `ReadData` for data that no cache has.
unfoldable pub read_through : Disk → List BufferBlock → ℕ → ℕ → ℕ → List BufferBlock × ReadResult
read_through d bs index offset len =
    elim (read_data_from_disk d.piece_length d.io d.files index offset
      (read_length d index offset)) [
        | none ↦ (bs, fails)
        | some bytes ↦ (
          pop_over (get_read_cache_size d) (bs ++ blocks_of (length bytes) index offset 0 bytes),
          gives (take len bytes),
        )
      ]

-- `ReadData`
unfoldable pub read_data : Disk → List BufferBlock → ℕ → ℕ → ℕ → List BufferBlock × ReadResult
read_data d bs index offset len =
    let cached = read_data_from_cache d bs index offset len in
    elim cached.1 [ some x ↦ (cached.0, x) | none ↦ read_through d bs index offset len ]

-- Reads of a piece, an offset and a length, one after the other, whatever they give.
unfoldable pub read_all :
    Disk → List BufferBlock → List (ℕ × ℕ × ℕ) → List BufferBlock × List ReadResult
read_all d bs [] = (bs, [])
read_all d bs ((index, offset, len) ∷ rs) =
    let first = read_data d bs index offset len in
    let rest = read_all d first.0 rs in (rest.0, first.1 ∷ rest.1)
