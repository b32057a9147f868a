-- ===== src/ShareRequest.antt =====
-- benliud_bt/src/ShareRequest.cpp: a piece that several peers are asked for at the same time.
pub mod Shape
pub mod Data
pub mod Tasks
mod Tests
use benliud.Common.{
  ℕ, zero, suc, ◌+◌, ◌-◌, ◌*◌, ◌%◌, ◌^◌, Bool, true, false, not, ◌&&◌, List, [], ◌∷◌, ◌++◌, map,
  Option, none, some, length, replicate, ltb, leb, ◌==◌, if◌then◌else◌,
}
use benliud.Common.Int.{ℤ, at_most}
use benliud.Common.Search.{find_first, update_first, all}
use benliud.SingleRequest.{chunk_len}

-- `CRequestBlock`; `data` is `bytes` here, `pending` and `comfirm` are `unsigned short`.
pub record ShareBlock : Type 0 where
  pub offset : ℕ
  pub length : ℕ
  pub pending : ℕ
  pub comfirm : ℕ
  pub source : ℕ
  pub bytes : List ℕ

pub record ShareRequest : Type 0 where
  pub index : ℤ
  pub priority : ℤ
  pub piece_length : ℕ
  pub fail_times : ℕ
  pub blocks : List ShareBlock

-- `x--` and `x++` on an `unsigned short`
abbrev pub less_one : ℕ → ℕ
less_one n = (n + 2 ^ 16 - 1) % 2 ^ 16

abbrev pub plus_one : ℕ → ℕ
plus_one n = (n + 1) % 2 ^ 16

-- What `Decompose` pushes for one offset.
pub block_at : ℕ → ℕ → ShareBlock
block_at piece_length offset = record {
  offset = offset;
  length = if ltb chunk_len (piece_length - offset) then chunk_len else piece_length - offset;
  pending = 0;
  comfirm = 0;
  source = 0;
  bytes = [];
}

-- The loop of `Decompose` from an offset on, with fuel for the rounds.
pub decompose : ℕ → ℕ → ℕ → List ShareBlock
decompose zero piece_length offset = []
decompose (suc fuel) piece_length offset =
    let block = block_at piece_length offset in
    let rest = decompose fuel piece_length (offset + block.length) in
    if ltb offset piece_length then block ∷ rest else []

-- `Init`
pub init : ℤ → ℕ → ℤ → ShareRequest
init index piece_length priority = record {
  index = index;
  priority = priority;
  piece_length = piece_length;
  fail_times = 0;
  blocks = decompose piece_length piece_length 0;
}

-- `it->data.empty()`
pub no_bytes : ShareBlock → Bool
no_bytes b = length b.bytes == 0

-- The body of the loop of `ClearData`.
pub drop_bytes : ShareBlock → ShareBlock
drop_bytes b = if no_bytes b then b else record b { bytes = []; source = 0 }

-- `ClearData`
pub clear_data : ShareRequest → ShareRequest
clear_data r = record r { fail_times = 0; blocks = map drop_bytes r.blocks }

-- The results of `SetData`: 0, -1 and -2.
pub data SetResult : Type 0 where
  stored not_found differs : SetResult

-- `it->data == data`, byte by byte.
unfoldable pub equal : List ℕ → List ℕ → Bool
equal [] [] = true
equal (x ∷ xs) (y ∷ ys) = if x == y then equal xs ys else false
equal _ _ = false

-- `it->offset == offset`
pub starts_at : ℕ → ShareBlock → Bool
starts_at offset b = b.offset == offset

-- What `SetData` makes of the block that it finds.
pub receive : ℕ → List ℕ → ShareBlock → ShareBlock × SetResult
receive iip bytes b =
    let c = record b { pending = less_one b.pending } in
    if no_bytes b
    then (record c { source = iip; bytes = bytes }, stored)
    else if not (equal b.bytes bytes)
    then ((if b.comfirm == 0 then record c { bytes = bytes; source = iip } else c), differs)
    else ((if iip == b.source then c else record c { comfirm = plus_one b.comfirm }), stored)

-- `SetData`
pub set_data : ShareRequest → ℕ → ℕ → List ℕ → ShareRequest × SetResult
set_data r iip offset bytes = elim (find_first (starts_at offset) r.blocks) [
  | none ↦ (r, not_found)
  | some b ↦ (
    record r { blocks = update_first (starts_at offset) (λ c. (receive iip bytes c).0) r.blocks },
    (receive iip bytes b).1,
  )
]

-- `IsFinish`
pub is_finish : ShareRequest → Bool
is_finish r = all (λ b. not (no_bytes b)) r.blocks

-- The concatenation that `CheckHash` and `GetPieceData` build.
pub all_data : List ShareBlock → List ℕ
all_data [] = []
all_data (b ∷ bs) = b.bytes ++ all_data bs

-- `GetPieceData`
unfoldable pub get_piece_data : ShareRequest → List ℕ
get_piece_data r = all_data r.blocks

-- `CheckHash`, over `Tools::SHA1String`.
unfoldable pub check_hash : (List ℕ → List ℕ) → ShareRequest → List ℕ → ShareRequest × Bool
check_hash sha1_string r hash =
    if equal (sha1_string (all_data r.blocks)) hash
    then (r, true)
    else (record r { fail_times = plus_one r.fail_times }, false)

-- The test of a loop that looks for a block without data, asked for fewer than `limit` times.
pub wants : ℕ → ShareBlock → Bool
wants limit b = no_bytes b && ltb b.pending limit

-- `it->pending++`
pub ask : ShareBlock → ShareBlock
ask b = record b { pending = plus_one b.pending }

-- The first block below the limit is taken.
pub take_task : ℕ → ShareRequest → ShareRequest × Option (ℕ × ℕ)
take_task limit r = elim (find_first (wants limit) r.blocks) [
  | none ↦ (r, none)
  | some b ↦
      (record r { blocks = update_first (wants limit) ask r.blocks }, some (b.offset, b.length))
]

-- `GetTask`. The loop returns at the first hit, so `least` is 0xFFFF at every test.
pub get_task : ShareRequest → ShareRequest × Option (ℕ × ℕ)
get_task r = if at_most r.priority 0 then (r, none) else take_task 0xFFFF r

-- `GetOverlapTask`: a second request for a block above priority 5, a third above 10.
pub get_overlap_task : ShareRequest → ShareRequest × Option (ℕ × ℕ)
get_overlap_task r =
    if at_most r.priority 5 then (r, none) else elim (find_first (wants 2) r.blocks) [
      | some b ↦ take_task 2 r
      | none ↦ if at_most r.priority 10 then (r, none) else take_task 3 r
    ]

-- `SetPriority`
pub set_priority : ShareRequest → ℤ → ShareRequest
set_priority r prio = record r { priority = prio }

-- `it->pending--`
pub forget : ShareBlock → ShareBlock
forget b = record b { pending = less_one b.pending }

-- `GiveUp`
pub give_up : ShareRequest → ℕ → ShareRequest
give_up r offset = record r { blocks = update_first (starts_at offset) forget r.blocks }

-- The body of the loop of `SetVirtualData`: a block inside the range becomes zeros.
pub zero_inside : ℕ → ℕ → ShareBlock → ShareBlock
zero_inside offset len b =
    if leb offset b.offset && leb ((b.offset + b.length) % 2 ^ 32) ((offset + len) % 2 ^ 32)
    then record b { bytes = replicate b.length 0 }
    else b

-- `SetVirtualData`
pub set_virtual_data : ShareRequest → ℕ → ℕ → ShareRequest
set_virtual_data r offset len = record r { blocks = map (zero_inside offset len) r.blocks }

-- `DataFromSameSource`; `none` for `front()` of an empty list.
pub data_from_same_source : ShareRequest → Option Bool
data_from_same_source r = elim r.blocks [
  | [] ↦ none
  | b ∷ bs ↦ some (all (λ c. c.source == b.source) (b ∷ bs))
]

-- The body of the loop of `ClearComfirmData`.
pub drop_unconfirmed : ℕ → ShareBlock → ShareBlock
drop_unconfirmed fail_times b =
    if not (no_bytes b) && ltb b.comfirm fail_times then record b { bytes = []; source = 0 } else b

-- `ClearComfirmData`
pub clear_comfirm_data : ShareRequest → ShareRequest
clear_comfirm_data r = record r { blocks = map (drop_unconfirmed r.fail_times) r.blocks }
