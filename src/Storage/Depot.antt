-- ===== src/Storage/Depot.antt =====
-- benliud_bt/src/BTStorage.cpp: what the storage keeps of pieces that are on their way to the disk. Data
-- that came for no request waits as orphans, pieces that several peers are asked for have requests of
-- the storage's own, and whole pieces wait in the write cache.
pub mod Verified
pub mod Downloading
use benliud.Common.{
  ℕ, Bool, true, false, not, List, [], ◌∷◌, ◌++◌, map, Option, none, some, length, ltb, ◌==◌,
  if◌then◌else◌, ◌+◌, ◌%◌, ◌^◌,
}
use benliud.Common.Int.{pos}
use benliud.Piece.{is_set}
use benliud.Piece
use benliud.PieceSum.{get_value, nonzero}
use benliud.SingleRequest.Alien.{Orphan}
use benliud.ShareRequest.{
  ShareRequest, SetResult, equal, check_hash, clear_comfirm_data, get_piece_data, is_finish,
  set_data, set_virtual_data, get_task,
}
use benliud.ShareRequest
use benliud.Storage.{Storage, drop_task}

-- What the torrent file tells, with `Tools::SHA1String`, and the constant map of the parts of pieces that
-- lie in virtual files, in which `GetAffectRangeByVirtualFileInPiece` looks.
pub record Torrent : Type 0 where
  pub piece_count : ℕ
  pub piece_length : ℕ → ℕ
  pub piece_hash : ℕ → List ℕ
  pub sha1_string : List ℕ → List ℕ
  pub virtual_range : ℕ → Option (ℕ × ℕ)

-- A `std::map` with pieces for its keys, in ascending order.
abbrev pub PieceMap {ℓ} : Type ℓ → Type ℓ
PieceMap A = List (ℕ × A)

module _ {ℓ} {A : Type ℓ} where
  -- `find`
  unfoldable pub find_piece : ℕ → PieceMap A → Option A
  find_piece p [] = none
  find_piece p ((k, a) ∷ m) = if p == k then some a else find_piece p m

  -- `m[p] = a`
  unfoldable pub put_piece : ℕ → A → PieceMap A → PieceMap A
  put_piece p a [] = (p, a) ∷ []
  put_piece p a ((k, b) ∷ m) =
      let rest = put_piece p a m in
      if p == k then (p, a) ∷ m else if ltb p k then (p, a) ∷ (k, b) ∷ m else (k, b) ∷ rest

  -- `erase`
  unfoldable pub erase_piece : ℕ → PieceMap A → PieceMap A
  erase_piece p [] = []
  erase_piece p ((k, a) ∷ m) = if p == k then m else (k, a) ∷ erase_piece p m

  unfoldable pub keys : PieceMap A → List ℕ
  keys m = map (λ e. e.0) m

-- `m_OrphanMap`, `m_ShareRequestMap`, `m_WriteCache` and `m_nWasteByte`, beside the members that the
-- choice of a piece depends on.
pub record Depot : Type 0 where
  pub storage : Storage
  pub orphan_map : PieceMap (List Orphan)
  pub shares : PieceMap ShareRequest
  pub write_cache : PieceMap (List ℕ)
  pub waste_byte : ℕ

unfoldable pub with_orphans : Depot → PieceMap (List Orphan) → Depot
with_orphans d m = record d { orphan_map = m; storage = record d.storage { orphans = keys m } }

-- `CleanOrphan`
unfoldable pub clean_orphan : Depot → ℕ → Depot
clean_orphan d index = with_orphans d (erase_piece index d.orphan_map)

-- `CheckOutOrphanData`: the orphans of a piece, which are taken out.
unfoldable pub check_out_orphan_data : Depot → ℕ → Depot × List Orphan
check_out_orphan_data d index = elim (find_piece index d.orphan_map) [
  | none ↦ (d, [])
  | some os ↦ (with_orphans d (erase_piece index d.orphan_map), os)
]

-- `CheckInOrphanData`, for a list and for one block.
unfoldable pub check_in_orphan_data : Depot → ℕ → List Orphan → Depot
check_in_orphan_data d index os = elim (find_piece index d.orphan_map) [
  | none ↦ with_orphans d (put_piece index os d.orphan_map)
  | some old ↦ with_orphans d (put_piece index (old ++ os) d.orphan_map)
]

unfoldable pub check_in_orphan : Depot → ℕ → ℕ → ℕ → List ℕ → Depot
check_in_orphan d index iip offset bytes =
    check_in_orphan_data d index
      (record { index = some index; offset = offset; source = iip; bytes = bytes } ∷ [])

-- `AbandonPieceTask`
unfoldable pub abandon_task : Torrent → Depot → ℕ → Depot
abandon_task t d index =
    if ltb index t.piece_count
    then record d {
      storage = record d.storage { downloading = drop_task index d.storage.downloading };
    }
    else d

-- The end of `WritePiece` for a piece that is wanted.
unfoldable pub cache_piece : Depot → ℕ → List ℕ → Depot
cache_piece d index bytes = record d {
  storage = record d.storage { finished = Piece.set d.storage.finished index true };
  write_cache = put_piece index bytes d.write_cache;
}

unfoldable pub waste : Depot → List ℕ → Depot
waste d bytes = record d { waste_byte = (d.waste_byte + length bytes) % 2 ^ 32 }

-- `WritePiece`, up to the cache of the pieces at the edges of files and what is told to other parts.
unfoldable pub write_piece : Depot → ℕ → List ℕ → Depot
write_piece d index bytes =
    let clean = clean_orphan d index in
    if is_set d.storage.finished index
    then waste clean bytes
    else if not (nonzero (get_value d.storage.priority index))
    then waste clean bytes
    else cache_piece clean index bytes

-- A new `CShareRequest` for a piece, with its virtual part.
unfoldable pub new_share : Torrent → Depot → ℕ → ShareRequest
new_share t d index =
    let r =
      ShareRequest.init (pos index) (t.piece_length index) (get_value d.storage.priority index) in
    elim (t.virtual_range index) [ none ↦ r | some (offset, len) ↦ set_virtual_data r offset len ]

-- The loop that gives the orphans to the request.
unfoldable pub adopt : ShareRequest → List Orphan → ShareRequest
adopt r [] = r
adopt r (o ∷ os) = adopt (set_data r o.source o.offset o.bytes).0 os

-- `m_ShareRequestMap[index]` is asked for a block.
unfoldable pub ask_share : Depot → ℕ → ShareRequest → Depot × Option (ℕ × ℕ)
ask_share d index r =
    let (r', task) = get_task r in (record d { shares = put_piece index r' d.shares }, task)

-- `Tools::SHA1String(data) == GetPieceHash(index)`
unfoldable pub hash_ok : Torrent → ℕ → List ℕ → Bool
hash_ok t index bytes = equal (t.sha1_string bytes) (t.piece_hash index)

-- `GetShareTask` for a piece without a request.
unfoldable pub open_share : Torrent → Depot → ℕ → Depot × Option (ℕ × ℕ)
open_share t d index =
    let (taken, orphans) = check_out_orphan_data d index in
    let r = adopt (new_share t d index) orphans in
    if not (is_finish r)
    then ask_share taken index r
    else if hash_ok t index (get_piece_data r)
    then (write_piece taken index (get_piece_data r), none)
    else ask_share taken index
        (ShareRequest.init (pos index) (t.piece_length index) (get_value d.storage.priority index))

-- `GetShareTask`
unfoldable pub get_share_task : Torrent → Depot → ℕ → Depot × Option (ℕ × ℕ)
get_share_task t d index =
    if is_set d.storage.finished index then (d, none) else elim (find_piece index d.shares) [
      | some r ↦ ask_share d index r
      | none ↦ open_share t d index
    ]

-- The end of `SubmitShareData`, when no block is missing.
unfoldable pub settle_share : Torrent → Depot → ℕ → ShareRequest → Depot × Bool
settle_share t d index r =
    let (r', good) = check_hash t.sha1_string r (t.piece_hash index) in
    if good
    then (
      record (write_piece d index (get_piece_data r')) { shares = erase_piece index d.shares },
      false,
    )
    else (record d { shares = put_piece index (clear_comfirm_data r') d.shares }, true)

-- `SubmitShareData`; `false` says that the piece needs no more data.
unfoldable pub submit_share_data : Torrent → Depot → ℕ → ℕ → ℕ → List ℕ → Depot × Bool
submit_share_data t d source index offset bytes =
    if is_set d.storage.finished index then (d, false) else elim (find_piece index d.shares) [
      | none ↦ (d, false)
      | some r ↦
          let r' = (set_data r source offset bytes).0 in
          if not (is_finish r')
          then (record d { shares = put_piece index r' d.shares }, true)
          else settle_share t d index r'
    ]
