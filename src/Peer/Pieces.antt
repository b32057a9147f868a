-- ===== src/Peer/Pieces.antt =====
-- The pieces that the peer of a connection has, in benliud_bt/src/BTPeer.cpp, and the counters of the
-- storage that its messages change. Ticks, the answers and what is asked for are left out.
use benliud.Common.{
  ℕ, ◌+◌, ◌/◌, ◌%◌, Bool, true, false, not, ◌&&◌, ◌||◌, List, length, leb, ◌==◌, if◌then◌else◌,
}
use benliud.Piece.{BtPiece, is_set, set_all, init_stream}
use benliud.Piece
use benliud.PieceSum.{BtPieceSum}
use benliud.PieceSum.Notices.{piece_change_notice, peer_have_new_piece_notice}
use benliud.Peer.{word_at}

-- The members of `CBTPeer` that speak of the peer's pieces; `linked` is `m_LinkStatus==LS_CONNOK`,
-- and `shaked` is `IsShaked()`.
pub record PiecePeer : Type 0 where
  pub linked : Bool
  pub shaked : Bool
  pub fast_extension : Bool
  pub upload_mode : Bool
  pub got_bit_set : Bool
  pub peer_bit_set : BtPiece

-- What the session tells: the number of pieces, whether `CheckBitSet` finds no piece missing that the
-- peer had before, and `IsPeerNeedMyPiece`.
pub record Session : Type 0 where
  pub piece_count : ℕ
  pub is_honest : BtPiece → Bool
  pub is_peer_need_my_piece : BtPiece → Bool

-- A peer and `m_bitPieceSum` of the storage.
abbrev pub Counted : Type 0
Counted = PiecePeer × BtPieceSum

-- `if (m_bGotBitSet) PieceChangeNotice(m_PeerBitSet, false)`
unfoldable pub take_off : PiecePeer → BtPieceSum → BtPieceSum
take_off p sum = if p.got_bit_set then piece_change_notice sum p.peer_bit_set false else sum

-- `OnClose` with `OnConnectionClose`
unfoldable pub close_peer : PiecePeer → BtPieceSum → Counted
close_peer p sum = (record p { linked = false }, if p.linked then take_off p sum else sum)

unfoldable pub got_bits : PiecePeer → BtPiece → PiecePeer
got_bits p bits = record p { got_bit_set = true; peer_bit_set = bits }

-- `DoCmdBitfield` after the test of the length
unfoldable pub new_bitfield : Session → PiecePeer → BtPieceSum → BtPiece → Counted
new_bitfield s p sum bits =
    let taken = take_off p sum in
    let p' = got_bits p bits in
    if p.upload_mode && (not (s.is_honest bits) || not (s.is_peer_need_my_piece bits))
    then close_peer p' taken
    else (p', piece_change_notice taken bits true)

unfoldable pub do_cmd_bitfield : Session → PiecePeer → BtPieceSum → List ℕ → Counted
do_cmd_bitfield s p sum body =
    if not p.shaked
    then (p, sum)
    else if length body == s.piece_count / 8 + (if s.piece_count % 8 == 0 then 0 else 1)
    then new_bitfield s p sum (init_stream body s.piece_count)
    else close_peer p sum

-- `DoCmdHave` on an index in range
unfoldable pub new_have : Session → PiecePeer → BtPieceSum → ℕ → Counted
new_have s p sum index =
    if not p.got_bit_set
    then (let bits = Piece.set (Piece.init s.piece_count) index true in
        (got_bits p bits, piece_change_notice sum bits true))
    else if is_set p.peer_bit_set index
    then (p, sum)
    else (
      record p { peer_bit_set = Piece.set p.peer_bit_set index true },
      peer_have_new_piece_notice sum index,
    )

unfoldable pub do_cmd_have : Session → PiecePeer → BtPieceSum → List ℕ → Counted
do_cmd_have s p sum body =
    if not (length body == 4) || not p.shaked
    then (p, sum)
    else if leb 2147483648 (word_at 0 body) || leb s.piece_count (word_at 0 body)
    then close_peer p sum
    else new_have s p sum (word_at 0 body)

unfoldable pub do_cmd_have_all : Session → PiecePeer → BtPieceSum → List ℕ → Counted
do_cmd_have_all s p sum body =
    if not p.fast_extension
    then close_peer p sum
    else if not (length body == 0)
    then (p, sum)
    else if p.upload_mode
    then close_peer p sum
    else (let bits = set_all (Piece.init s.piece_count) in
        (got_bits p bits, piece_change_notice (take_off p sum) bits true))

unfoldable pub do_cmd_have_none : Session → PiecePeer → BtPieceSum → List ℕ → Counted
do_cmd_have_none s p sum body =
    if not p.fast_extension
    then close_peer p sum
    else if not (length body == 0)
    then (p, sum)
    else (let p' = got_bits p (Piece.init s.piece_count) in
        if p.upload_mode && not (s.is_honest (Piece.init s.piece_count))
        then close_peer p' (take_off p sum)
        else (p', take_off p sum))
