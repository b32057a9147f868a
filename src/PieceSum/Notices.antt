-- ===== src/PieceSum/Notices.antt =====
-- What benliud_bt/src/BTStorage.cpp does with the piece counters when a peer tells of its pieces.
use benliud.Common.{ℕ, Bool, if◌then◌else◌}
use benliud.Piece.{BtPiece}
use benliud.PieceSum.{BtPieceSum, add, sub, new_piece}

-- `PieceChangeNotice(bitset, newpeer)`, on `m_bitPieceSum`
unfoldable pub piece_change_notice : BtPieceSum → BtPiece → Bool → BtPieceSum
piece_change_notice s bitset newpeer = if newpeer then add s bitset else sub s bitset

-- `PeerHaveNewPieceNotice(iip, index)`, on `m_bitPieceSum`
unfoldable pub peer_have_new_piece_notice : BtPieceSum → ℕ → BtPieceSum
peer_have_new_piece_notice s index = new_piece s index
