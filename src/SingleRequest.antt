-- ===== src/SingleRequest.antt =====
-- benliud_bt/src/SingleRequest.cpp: the piece that one peer is asked for, cut into blocks, with the
-- blocks that are asked for and the data that has come.
pub mod Alien
pub mod Clock
pub mod Tiles
pub mod Pending
pub mod Data
pub mod Timing
pub mod Calls
pub mod Session
pub mod Requests
mod Tests
use benliud.Common.{
  ℕ, zero, suc, ◌+◌, ◌-◌, ◌*◌, ◌%◌, ◌^◌, Bool, true, false, not, ◌&&◌, List, [], ◌∷◌, ◌++◌, map,
  Option, none, some, length, replicate, ltb, leb, ◌==◌, if◌then◌else◌,
}
use benliud.Common.Search.{find_first, update_first, all}

-- `_CHUNK_LEN`
abbrev pub chunk_len : ℕ
chunk_len = 16 * 1024

-- `CRequestBlock`; `data` is `bytes` here.
pub record RequestBlock : Type 0 where
  pub offset : ℕ
  pub length : ℕ
  pub outtick : ℕ
  pub source : ℕ
  pub pending : Bool
  pub bytes : List ℕ

-- The members of `CSingleRequest`; `index` is `none` for -1, and `pending_count` is `m_nPending`.
pub record SingleRequest : Type 0 where
  pub index : Option ℕ
  pub piece_length : ℕ
  pub allow_fast : Bool
  pub pending_count : ℕ
  pub last_request : ℕ
  pub last_data : ℕ
  pub choke : ℕ
  pub choke_tick : ℕ
  pub blocks : List RequestBlock

-- What `Decompose` pushes for one offset.
unfoldable pub block_at : ℕ → ℕ → RequestBlock
block_at piece_length offset = record {
  offset = offset;
  length = if ltb chunk_len (piece_length - offset) then chunk_len else piece_length - offset;
  outtick = 0;
  source = 0;
  pending = false;
  bytes = [];
}

-- The loop of `Decompose` from an offset on, with fuel for the rounds.
unfoldable pub decompose : ℕ → ℕ → ℕ → List RequestBlock
decompose zero piece_length offset = []
decompose (suc fuel) piece_length offset =
    let block = block_at piece_length offset in
    let rest = decompose fuel piece_length (offset + block.length) in
    if ltb offset piece_length then block ∷ rest else []

-- The constructor. `m_nLength` and `m_bAllowFast` are left uninitialised: `raw` and `fast`.
unfoldable pub new : ℕ → ℕ → Bool → SingleRequest
new now raw fast = record {
  index = none;
  piece_length = raw;
  allow_fast = fast;
  pending_count = 0;
  last_request = 0;
  last_data = 0;
  choke = 0;
  choke_tick = now;
  blocks = [];
}

-- `Init`; a negative index is `none`. The blocks are pushed behind those that are there.
unfoldable pub init : SingleRequest → Option ℕ → ℕ → SingleRequest
init r none piece_length = record r { index = none; pending_count = 0 }
init r (some index) piece_length = record r {
  index = some index;
  piece_length = piece_length;
  allow_fast = false;
  pending_count = 0;
  last_data = 0;
  last_request = 0;
  blocks = r.blocks ++ decompose piece_length piece_length 0;
}

-- `Reset`
unfoldable pub reset : SingleRequest → SingleRequest
reset r = record r { blocks = []; index = none; pending_count = 0; last_data = 0; last_request = 0 }

-- `m_nPending--` on an `unsigned int`
abbrev pub decrement : ℕ → ℕ
decrement n = (n + 2 ^ 32 - 1) % 2 ^ 32

-- `m_nPending++`
abbrev pub increment : ℕ → ℕ
increment n = (n + 1) % 2 ^ 32

-- `it->data.empty()`
unfoldable pub no_bytes : RequestBlock → Bool
no_bytes b = length b.bytes == 0

-- The test of `SetData` and `SetAlien`.
unfoldable pub takes : ℕ → List ℕ → RequestBlock → Bool
takes offset bytes b = b.offset == offset && b.length == length bytes

-- `SetData`
unfoldable pub set_data : SingleRequest → ℕ → List ℕ → ℕ → SingleRequest × Bool
set_data r offset bytes now = elim (find_first (takes offset bytes) r.blocks) [
  | none ↦ (r, false)
  | some b ↦ (
    record r {
      pending_count = if b.pending then decrement r.pending_count else r.pending_count;
      last_data = now;
      blocks =
          update_first (takes offset bytes) (λ c. record c { pending = false; bytes = bytes })
            r.blocks;
    },
    true,
  )
]

-- `IsFinish`
unfoldable pub is_finish : SingleRequest → Bool
is_finish r = all (λ b. not (no_bytes b)) r.blocks

-- The concatenation that `CheckHash` and `GetPieceData` build.
unfoldable pub all_data : List RequestBlock → List ℕ
all_data [] = []
all_data (b ∷ bs) = b.bytes ++ all_data bs

-- `GetPieceData`
unfoldable pub get_piece_data : SingleRequest → List ℕ
get_piece_data r = all_data r.blocks

-- `CheckHash`, over `Tools::SHA1String` and the comparison of strings.
unfoldable pub check_hash :
    (List ℕ → List ℕ) → (List ℕ → List ℕ → Bool) → SingleRequest → List ℕ → Bool
check_hash sha1_string equal r hash = equal (sha1_string (all_data r.blocks)) hash

-- The test of `GetTask`: nothing has come, and nothing is asked for.
unfoldable pub is_free : RequestBlock → Bool
is_free b = no_bytes b && not b.pending

-- `GetTask`: the offset and length of the block to ask for.
unfoldable pub get_task : SingleRequest → ℕ → SingleRequest × Option (ℕ × ℕ)
get_task r now = elim (find_first is_free r.blocks) [
  | none ↦ (r, none)
  | some b ↦ (
    record r {
      last_request = now;
      pending_count = increment r.pending_count;
      blocks = update_first is_free (λ c. record c { pending = true }) r.blocks;
    },
    some (b.offset, b.length),
  )
]

-- `it->pending = false`
unfoldable pub not_pending : RequestBlock → RequestBlock
not_pending b = record b { pending = false }

-- `ResetPendingRequest()`
unfoldable pub reset_pending_request : SingleRequest → SingleRequest
reset_pending_request r = record r {
  pending_count = 0;
  last_request = 0;
  last_data = 0;
  blocks = map not_pending r.blocks;
}

-- The test of the loops that look for an offset.
unfoldable pub starts_at : ℕ → RequestBlock → Bool
starts_at offset b = b.offset == offset

-- `ResetPendingRequest(offset)`
unfoldable pub reset_pending_request_at : SingleRequest → ℕ → SingleRequest
reset_pending_request_at r offset = elim (find_first (starts_at offset) r.blocks) [
  | none ↦ r
  | some b ↦ record r {
    pending_count = if b.pending then decrement r.pending_count else r.pending_count;
    blocks = update_first (starts_at offset) (λ c. record c { pending = false }) r.blocks;
  }
]

-- `IsPendingRequest`
unfoldable pub is_pending_request : SingleRequest → ℕ → Bool
is_pending_request r offset = elim (find_first (starts_at offset) r.blocks) [
  | none ↦ false
  | some b ↦ b.pending
]

-- `MarkPendingRequest`
unfoldable pub mark_pending_request : SingleRequest → ℕ → ℕ → SingleRequest × Bool
mark_pending_request r offset now = elim (find_first (starts_at offset) r.blocks) [
  | none ↦ (r, false)
  | some b ↦ (
    if b.pending then r else record r {
      pending_count = increment r.pending_count;
      blocks =
          update_first (starts_at offset) (λ c. record c { pending = true; outtick = now })
            r.blocks;
    },
    true,
  )
]

-- The body of the loop of `SetVirtualData`: a block inside the range becomes zeros, from no peer.
unfoldable pub zero_inside : ℕ → ℕ → RequestBlock → RequestBlock
zero_inside offset len b =
    if leb offset b.offset && leb ((b.offset + b.length) % 2 ^ 32) ((offset + len) % 2 ^ 32)
    then record b { bytes = replicate b.length 0; source = 0 }
    else b

-- `SetVirtualData`
unfoldable pub set_virtual_data : SingleRequest → ℕ → ℕ → SingleRequest
set_virtual_data r offset len = record r { blocks = map (zero_inside offset len) r.blocks }

-- `GetPendingRequest`: the loop, with `counter` entries written. A `size` of 0 still lets one
-- entry be written.
unfoldable pub pending_requests : ℕ → ℕ → List RequestBlock → List (ℕ × ℕ)
pending_requests size counter [] = []
pending_requests size counter (b ∷ bs) =
    let rest = pending_requests size (if b.pending then counter + 1 else counter) bs in
    if b.pending then (b.offset, b.length) ∷ (if leb size (counter + 1) then [] else rest) else rest

unfoldable pub get_pending_request : SingleRequest → ℕ → List (ℕ × ℕ)
get_pending_request r size = pending_requests size 0 r.blocks

-- `Empty`
unfoldable pub empty : SingleRequest → Bool
empty r = elim r.index [ none ↦ true | some _ ↦ false ]
