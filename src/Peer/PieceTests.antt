-- ===== src/Peer/PieceTests.antt =====
-- A peer of BTPeer.cpp that tells of its pieces, in a torrent of ten pieces that two others share.
use benliud.Common.{ℕ, ◌<◌, ◌≡◌, refl, sym, subst, arith, true, false, List, [], ◌∷◌, if◌then◌else◌}
use benliud.Common.Int.{pos}
use benliud.Piece.{BtPiece, is_set, set_all, init_stream}
use benliud.Piece
use benliud.Piece.Laws.{init-IsValid}
use benliud.PieceSum.{BtPieceSum, drop_one, get_value, sub}
use benliud.PieceSum
use benliud.PieceSum.Laws.{init-IsValid as sum-IsValid, size-init, get_value-init}
use benliud.Peer.Pieces.{PiecePeer, Session, do_cmd_bitfield, close_peer}
use benliud.Peer.Tally.{Counts, Tally}
use benliud.Peer.Announcing.{
  Telling, bitfield, have, tell_all, close_peer-tell_all, get_value-do_cmd_bitfield,
}
use benliud.Peer.Swarm.{Event, connects, shakes, tells, closes, start, run, holders, get_value-run}

abbrev session : Session
session = record {
  piece_count = 10;
  is_honest = λ bits. true;
  is_peer_need_my_piece = λ bits. false;
}

abbrev downloading : PiecePeer
downloading = record {
  linked = true;
  shaked = true;
  fast_extension = false;
  upload_mode = false;
  got_bit_set = false;
  peer_bit_set = Piece.init 10;
}

abbrev uploading : PiecePeer
uploading = record downloading { upload_mode = true }

abbrev counters : BtPieceSum
counters = PieceSum.init 10 (pos 2)

counters-Counts : Counts 10 (λ i. 2) counters
counters-Counts = record {
  valid = sum-IsValid 10 (pos 2);
  sized = size-init 10 (pos 2);
  counted = λ i h. get_value-init 10 i (pos 2) h;
}

downloading-Tally : Tally 10 (λ i. 2) (downloading, counters)
downloading-Tally = record {
  downloads = refl;
  bits_valid = init-IsValid 10;
  bits_sized = λ e. absurd (cc);
  counts = counters-Counts;
}

-- A bitfield with pieces 1 and 9, piece 4, and piece 4 again.
abbrev tellings : List Telling
tellings = bitfield (0x40 ∷ 0x40 ∷ []) ∷ have (0 ∷ 0 ∷ 0 ∷ 4 ∷ []) ∷ have (0 ∷ 0 ∷ 0 ∷ 4 ∷ []) ∷ []

close_peer-tell_all_example :
    Tally 10 (λ i. 2) (tell_all session (downloading, counters) tellings)
    × ((i : ℕ)
        → i < 10
        → let x = tell_all session (downloading, counters) tellings in
          get_value (close_peer x.0 x.1).1 i ≡ pos 2)
close_peer-tell_all_example =
    close_peer-tell_all session (λ i. 2) downloading counters tellings
      ((omega arith, (omega arith, tt)), (tt, (tt, tt))) downloading-Tally

-- Two peers connect and shake hands; one sends a bitfield, the other piece 4; the first closes.
abbrev events : List Event
events =
    connects
    ∷ connects
    ∷ shakes 0 false
    ∷ shakes 1 true
    ∷ tells 0 (bitfield (0x40 ∷ 0x40 ∷ []))
    ∷ tells 1 (have (0 ∷ 0 ∷ 0 ∷ 4 ∷ []))
    ∷ closes 0
    ∷ []

get_value-run_example :
    get_value (run session (start 10) events).sum 4
    ≡ pos (holders 4 (run session (start 10) events).peers)
get_value-run_example =
    get_value-run session events 4
      (tt, (tt, (tt, (tt, ((refl, (omega arith, (omega arith, tt))), ((refl, tt), (tt, tt)))))))
      (omega arith)

get_value-do_cmd_bitfield_example :
    get_value (do_cmd_bitfield session uploading counters (0x40 ∷ 0x40 ∷ [])).1 1 ≡ (
      if is_set (init_stream (0x40 ∷ 0x40 ∷ []) 10) 1
      then drop_one (get_value counters 1)
      else get_value counters 1)
get_value-do_cmd_bitfield_example =
    get_value-do_cmd_bitfield session uploading counters (0x40 ∷ 0x40 ∷ []) 1 refl refl refl refl
      refl refl (sum-IsValid 10 (pos 2)) one_below
  where
    one_below : 1 < counters.size
    one_below = subst (λ n. 1 < n) (sym (size-init 10 (pos 2))) (omega arith)
