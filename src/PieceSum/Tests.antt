-- ===== src/PieceSum/Tests.antt =====
-- BTPieceSum.cpp at concrete inputs.
use benliud.Common.{◌≡◌, refl, true, false, [], ◌∷◌}
use benliud.Piece.{BtPiece, is_set, test_bit, count_below}
use benliud.Common.Int.{succ, pos, negsuc}
use benliud.PieceSum.{
  BtPieceSum, init, add, sub, new_piece, get_value, set_value, get_set_count, get_unset_count,
  drop_one, nonzero, add_below, sub_below,
}
use benliud.PieceSum.Notices.{piece_change_notice, peer_have_new_piece_notice}

-- Of two pieces, a peer has the first.
abbrev first : BtPiece
first = record { size = 2; bytes = 0x80 ∷ [] }

-- Two such peers are counted, one of them announces the second piece, the other leaves.
abbrev counters : BtPieceSum
counters =
    piece_change_notice
      (peer_have_new_piece_notice
        (piece_change_notice (piece_change_notice (init 2 (pos 0)) first true) first true) 1)
      first false

counters_test :
    (counters ≡ record { size = 2; values = pos 1 ∷ pos 1 ∷ [] })
    × (get_set_count counters ≡ 2)
    × (get_unset_count counters ≡ 0)
    × (set_value counters 1 (negsuc 0) ≡ record { size = 2; values = pos 1 ∷ negsuc 0 ∷ [] })
    × (get_value counters 2 ≡ pos 0)
unfolding piece_change_notice peer_have_new_piece_notice init add sub add_below sub_below new_piece
    is_set test_bit succ drop_one get_set_count get_unset_count set_value get_value nonzero
    count_below
counters_test = (refl, refl, refl, refl, refl)
