-- ===== src/PieceSum.antt =====
-- benliud_bt/src/BTPieceSum.cpp: for each piece, how many connected peers have it. The counters stay
-- far below the limits of an `int`: they count connected peers.
pub mod Laws
pub mod Notices
mod Tests
use benliud.Common.{
  ℕ, zero, suc, Bool, true, false, List, length, get_or, replicate, leb, if◌then◌else◌, bit,
}
use benliud.Common.{set as put}
use benliud.Common.Int.{ℤ, pos, negsuc, succ}
use benliud.Piece.{BtPiece, is_set, count_below}

-- `m_size` and `m_data`
pub record BtPieceSum : Type 0 where
  pub size : ℕ
  pub values : List ℤ

-- `if (x > 0) x--`
unfoldable pub drop_one : ℤ → ℤ
drop_one (pos zero) = pos 0
drop_one (pos (suc n)) = pos n
drop_one (negsuc n) = negsuc n

-- `x != 0`
unfoldable pub nonzero : ℤ → Bool
nonzero (pos zero) = false
nonzero (pos (suc n)) = true
nonzero (negsuc n) = true

-- `Init`
unfoldable pub init : ℕ → ℤ → BtPieceSum
init size value = record { size = size; values = replicate size value }

-- The loops `for (i = 0; i < n; i++)` of `+=` and `-=`, over the counters.
pub add_below : ℕ → BtPiece → List ℤ → List ℤ
add_below zero peer vs = vs
add_below (suc n) peer vs =
    let vs' = add_below n peer vs in
    if is_set peer n then put vs' n (succ (get_or vs' n (pos 0))) else vs'

pub sub_below : ℕ → BtPiece → List ℤ → List ℤ
sub_below zero peer vs = vs
sub_below (suc n) peer vs =
    let vs' = sub_below n peer vs in
    if is_set peer n then put vs' n (drop_one (get_or vs' n (pos 0))) else vs'

-- `operator+=`: a peer's pieces are counted.
unfoldable pub add : BtPieceSum → BtPiece → BtPieceSum
add s peer = record s { values = add_below s.size peer s.values }

-- `operator-=`: a peer's pieces are taken off again, no counter below zero.
unfoldable pub sub : BtPieceSum → BtPiece → BtPieceSum
sub s peer = record s { values = sub_below s.size peer s.values }

-- `NewPiece`, with the assertion compiled out. A negative index
-- fails the same tests as one past the end, so an index is a natural number here.
pub new_piece : BtPieceSum → ℕ → BtPieceSum
new_piece s i =
    if leb s.size i
    then s
    else record s { values = put s.values i (succ (get_or s.values i (pos 0))) }

-- `GetValue`
unfoldable pub get_value : BtPieceSum → ℕ → ℤ
get_value s i = if leb s.size i then pos 0 else get_or s.values i (pos 0)

-- `SetValue`
pub set_value : BtPieceSum → ℕ → ℤ → BtPieceSum
set_value s i v = if leb s.size i then s else record s { values = put s.values i v }

-- `GetSetCount`
pub get_set_count : BtPieceSum → ℕ
get_set_count s = count_below s.size (λ i. nonzero (get_or s.values i (pos 0)))

-- `GetUnsetCount`
pub get_unset_count : BtPieceSum → ℕ
get_unset_count s =
    count_below s.size (λ i. if nonzero (get_or s.values i (pos 0)) then false else true)
