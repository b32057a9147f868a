-- ===== src/Storage.antt =====
-- benliud_bt/src/BTStorage.cpp: which piece is asked of a peer next, and what becomes of a piece that
-- has arrived. The piece and the disk are in Storage/Files.
pub mod Files
pub mod Cache
pub mod Depot
pub mod Tasks
pub mod Choice
pub mod Choose
mod Tests
use benliud.Common.{
  ℕ, zero, suc, ◌+◌, ◌-◌, ◌*◌, ◌%◌, Bool, true, false, not, ◌&&◌, ◌||◌, List, [], ◌∷◌, ◌++◌, Option,
  none, some, length, get_or, ltb, leb, ◌==◌, if◌then◌else◌,
}
use benliud.Common.Int.{ℤ, pos, negsuc, above, to_nat, lt_int, eq_int}
use benliud.Piece.{BtPiece, is_set, count_below}
use benliud.PieceSum.{BtPieceSum, get_value, nonzero}

-- `m_DownloadingMap`: how many peers each piece is asked of, in ascending order of the pieces.
abbrev pub DownloadingMap : Type 0
DownloadingMap = List (ℕ × ℕ)

-- The members that the choice depends on; `orphans` are the keys of `m_OrphanMap`, in ascending order.
pub record Storage : Type 0 where
  pub finished : BtPiece
  pub priority : BtPieceSum
  pub piece_sum : BtPieceSum
  pub downloading : DownloadingMap
  pub orphans : List ℕ

-- `m_DownloadingMap.find(index)`
unfoldable pub count_of : ℕ → DownloadingMap → Option ℕ
count_of p [] = none
count_of p ((k, c) ∷ m) = if p == k then some c else count_of p m

-- `m_DownloadingMap[index]++`, and `m_DownloadingMap[index] = 1` for a piece that is not there.
unfoldable pub add_task : ℕ → DownloadingMap → DownloadingMap
add_task p [] = (p, 1) ∷ []
add_task p ((k, c) ∷ m) =
    let rest = add_task p m in
    if p == k then (k, c + 1) ∷ m else if ltb p k then (p, 1) ∷ (k, c) ∷ m else (k, c) ∷ rest

-- `AbandonPieceTask`, for an index in range.
unfoldable pub drop_task : ℕ → DownloadingMap → DownloadingMap
drop_task p [] = []
drop_task p ((k, c) ∷ m) =
    let rest = drop_task p m in
    if p == k then (if ltb 1 c then (k, c - 1) ∷ m else m) else (k, c) ∷ rest

unfoldable pub abandon_piece_task : Storage → ℕ → Storage
abandon_piece_task s index =
    if ltb index s.finished.size
    then record s { downloading = drop_task index s.downloading }
    else s

-- `GetLeftPieceCount`
unfoldable pub get_left_piece_count : Storage → ℕ
get_left_piece_count s =
    count_below s.finished.size (λ i. nonzero (get_value s.priority i) && not (is_set s.finished i))

-- `CheckIsTaskFinished`: whether no wanted piece is missing.
unfoldable pub none_missing : ℕ → Storage → Bool
none_missing zero s = true
none_missing (suc n) s =
    let rest = none_missing n s in
    if nonzero (get_value s.priority n) && not (is_set s.finished n) then false else rest

unfoldable pub is_task_finished : Storage → Bool
is_task_finished s = none_missing s.finished.size s

-- The copy of the priorities in `GetPieceTask` in which what the peer lacks and what is finished is
-- set to 0: `pc2`.
unfoldable pub wanted : Storage → BtPiece → ℕ → ℤ
wanted s peer i =
    if is_set peer i && not (is_set s.finished i) then get_value s.priority i else pos 0

-- Whether one more peer may be asked for a piece of this priority.
unfoldable pub may_share : ℤ → ℕ → Bool
may_share prio count = (above prio 10 && leb count 2) || (above prio 5 && leb count 1)

-- And what is asked of enough peers: `pc`.
unfoldable pub open_value : Storage → BtPiece → ℕ → ℤ
open_value s peer i = elim (count_of i s.downloading) [
  | none ↦ wanted s peer i
  | some c ↦ if may_share (get_value s.priority i) c then wanted s peer i else pos 0
]

-- `maxprio`
unfoldable pub max_prio : ℕ → (ℕ → ℤ) → ℕ
max_prio zero f = 0
max_prio (suc n) f = let m = max_prio n f in if above (f n) m then to_nat (f n) else m

-- The loop over `m_OrphanMap`: `o_maxidx` and `o_maxprio`.
unfoldable pub best_orphan : (ℕ → ℤ) → Option ℕ → ℕ → List ℕ → Option ℕ × ℕ
best_orphan f idx prio [] = (idx, prio)
best_orphan f idx prio (i ∷ is) =
    if above (f i) prio then best_orphan f (some i) (to_nat (f i)) is else best_orphan f idx prio is

-- `MaxPriorityList`
unfoldable pub max_priority_list : ℕ → (ℕ → ℤ) → ℕ → List ℕ
max_priority_list zero f m = []
max_priority_list (suc n) f m =
    let rest = max_priority_list n f m in if eq_int (f n) (pos m) then rest ++ n ∷ [] else rest

-- `leastlist`, its pieces for their positions: those that the fewest peers have, `gmin`.
unfoldable pub least_list : BtPieceSum → ℤ → List ℕ → List ℕ → List ℕ
least_list sum gmin least [] = least
least_list sum gmin least (p ∷ ps) =
    if lt_int (get_value sum p) gmin
    then least_list sum (get_value sum p) (p ∷ []) ps
    else if eq_int (get_value sum p) gmin
    then least_list sum gmin (least ++ p ∷ []) ps
    else least_list sum gmin least ps

-- What `rand` returns in one call of `GetPieceTask`, and `pickleast`, which stands for a comparison
-- of `m_fPieceAvailability`, a floating-point number.
pub record Chance : Type 0 where
  pub first : ℕ
  pub second : ℕ
  pub pickleast : ℕ

-- The piece that is chosen at random from the list, or from the rarest in it.
unfoldable pub random_piece : Storage → Chance → List ℕ → ℕ
random_piece s r ps =
    let least = least_list s.piece_sum (pos 0x0FFFFFFF) [] ps in
    if ltb r.pickleast (r.first % 100)
    then get_or ps (r.second % length ps) 0
    else get_or least (r.second % length least) 0

-- `if (o_maxprio >= maxprio) piecetask = o_maxidx`
unfoldable pub orphan_or : ℕ → Option ℕ × ℕ → ℕ → ℕ
orphan_or maxprio (none, prio) other = other
orphan_or maxprio (some i, prio) other = if leb maxprio prio then i else other

-- The piece to take when some value is above 0.
unfoldable pub open_piece : Storage → BtPiece → Chance → ℕ → ℕ
open_piece s peer r maxprio =
    orphan_or maxprio (best_orphan (open_value s peer) none 0 s.orphans)
      (random_piece s r (max_priority_list s.priority.size (open_value s peer) maxprio))

-- A piece that is being downloaded and may be shared, when not in ending mode.
unfoldable pub shared_piece : (ℕ → ℤ) → DownloadingMap → Option ℕ
shared_piece f [] = none
shared_piece f ((k, c) ∷ m) = if may_share (f k) c then some k else shared_piece f m

-- In ending mode: the wanted piece that is asked of the fewest peers, and of less than `overlap`.
-- A count of 0 ends the search without a result.
unfoldable pub overlap_piece : (ℕ → ℤ) → Option ℕ → ℕ → DownloadingMap → Option ℕ
overlap_piece f idx overlap [] = idx
overlap_piece f idx overlap ((k, c) ∷ m) =
    if c == 0
    then none
    else if above (f k) 0 && ltb c overlap
    then overlap_piece f (some k) c m
    else overlap_piece f idx overlap m

pub data Task : Type 0 where
  task : (piece : ℕ) (coorperate : Bool) → Task

unfoldable pub take_task : Storage → ℕ → Storage
take_task s p = record s { downloading = add_task p s.downloading }

-- `coorperate` for a piece that was open: it is asked of another peer already, or is urgent, or the
-- end is near.
unfoldable pub cooperates : Storage → ℕ → Bool
cooperates s p =
    let near = ltb (get_left_piece_count s) (2 * length (take_task s p).downloading) in
    elim (count_of p s.downloading) [
      | none ↦ above (get_value s.priority p) 5 || near
      | some c ↦ true
    ]

unfoldable pub busy_piece : Storage → BtPiece → Option ℕ
busy_piece s peer =
    if ltb (length s.downloading * 2) (get_left_piece_count s)
    then shared_piece (wanted s peer) s.downloading
    else overlap_piece (wanted s peer) none 20 s.downloading

unfoldable pub open_task : Storage → ℕ → Storage × Option Task
open_task s p = (take_task s p, some (task p (cooperates s p)))

-- `GetPieceTask(bitSet, piecetask, coorperate)`
unfoldable pub get_piece_task : Storage → BtPiece → Chance → Storage × Option Task
get_piece_task s peer r =
    let maxprio = max_prio s.priority.size (open_value s peer) in
    if ltb 0 maxprio then open_task s (open_piece s peer r maxprio) else elim (busy_piece s peer) [
      | none ↦ (s, none)
      | some p ↦ (take_task s p, some (task p true))
    ]

-- `GetPieceTask(index, coorperate)`, for an index in range.
unfoldable pub get_appointed_task : Storage → ℕ → Storage × Option Task
get_appointed_task s index =
    if is_set s.finished index
    then (s, none)
    else if not (nonzero (get_value s.priority index))
    then (s, none)
    else elim (count_of index s.downloading) [
      | some c ↦
          if may_share (get_value s.priority index) c
          then (take_task s index, some (task index true))
          else (s, none)
      | none ↦ (take_task s index, some (task index (above (get_value s.priority index) 5)))
    ]

-- `IsPieceInterest`, for one piece and for a bitfield, and `IsPeerNeedMyPiece`.
unfoldable pub is_piece_interest : Storage → ℕ → Bool
is_piece_interest s index =
    if is_set s.finished index then false else nonzero (get_value s.priority index)

unfoldable pub interest_count : Storage → BtPiece → ℕ
interest_count s peer = count_below s.priority.size (λ i. nonzero (wanted s peer i))

unfoldable pub needs_below : ℕ → BtPiece → BtPiece → Bool
needs_below zero mine peer = false
needs_below (suc n) mine peer =
    let rest = needs_below n mine peer in
    if rest then true else is_set mine n && not (is_set peer n)

unfoldable pub is_peer_need_my_piece : Storage → BtPiece → Bool
is_peer_need_my_piece s peer = needs_below s.finished.size s.finished peer
