-- ===== src/Peer/Arrivals.antt =====
-- The messages with which a peer answers our requests, in benliud_bt/src/BTPeer.cpp. Ticks but those of
-- the request, and the counts of bytes, are left out.
pub mod Verified
pub mod Turns
pub mod Asking
pub mod Completion
pub mod Held
pub mod Messages
pub mod Balance
mod Tests
use benliud.Common.{
  ℕ, Bool, true, false, not, ◌||◌, List, [], ◌∷◌, ◌++◌, length, drop, ltb, leb, ◌==◌, if◌then◌else◌,
}
use benliud.Piece.{is_set}
use benliud.SingleRequest.{
  set_data, is_finish, get_piece_data, reset_pending_request, reset_pending_request_at,
}
use benliud.SingleRequest.Alien.{clear_alien, have_alien}
use benliud.SingleRequest.Clock.{choke_notice}
use benliud.Storage.Depot.{Torrent, check_in_orphan, write_piece, hash_ok, submit_share_data}
use benliud.Peer.{word_at}
use benliud.Peer.Downloads.{Link, index_of, with_request, give_back, close_link, cancel_my_request}

-- The end of `DoCmdPiece`, when a piece may be complete.
unfoldable pub finish_piece : Torrent → Link → ℕ → Link
finish_piece t x index =
    let r = x.peer.my_request in
    if not (is_finish r)
    then x
    else if hash_ok t index (get_piece_data r)
    then cancel_my_request t (record x { depot = write_piece x.depot index (get_piece_data r) })
    else if have_alien r x.peer.peer_iip
    then with_request x (clear_alien r x.peer.peer_iip)
    else close_link t (give_back t x)

-- `DoCmdPiece` for a block of the piece that was asked for.
unfoldable pub got_block : Torrent → Link → ℕ → ℕ → List ℕ → ℕ → Link
got_block t x index offset block now =
    let (r, known) = set_data x.peer.my_request offset block now in
    let y = with_request x r in
    let (depot, more) = submit_share_data t x.depot x.peer.peer_iip index offset block in
    let z = record y { depot = depot } in
    if not known
    then close_link t x
    else if x.peer.coorperate
    then (if more then finish_piece t z index else cancel_my_request t z)
    else finish_piece t y index

-- `DoCmdPiece`; the index is negative from 2^31 on.
unfoldable pub piece_arrived : Torrent → Link → ℕ → ℕ → List ℕ → ℕ → Link
piece_arrived t x index offset block now =
    if leb 2147483648 index || leb t.piece_count index
    then close_link t x
    else if is_set x.depot.storage.finished index
    then x
    else if not (index == index_of x.peer.my_request)
    then record x { depot = check_in_orphan x.depot index x.peer.peer_iip offset block }
    else got_block t x index offset block now

unfoldable pub do_cmd_piece : Torrent → Link → List ℕ → ℕ → Link
do_cmd_piece t x body now =
    if not x.peer.shaked
    then x
    else if leb (length body) 8
    then close_link t x
    else piece_arrived t x (word_at 0 body) (word_at 4 body) (drop 8 body) now

unfoldable pub do_cmd_choke : Link → List ℕ → ℕ → Link
do_cmd_choke x body now =
    let r = choke_notice x.peer.my_request true now in
    if not x.peer.shaked || not (length body == 0) then x else record x {
      peer = record x.peer {
        peer_choke_me = true;
        my_request = if x.peer.fast_extension then r else reset_pending_request r;
      };
    }

unfoldable pub do_cmd_unchoke : Link → List ℕ → ℕ → Link
do_cmd_unchoke x body now = if not x.peer.shaked || not (length body == 0) then x else record x {
  peer = record x.peer {
    peer_choke_me = false;
    my_request = choke_notice x.peer.my_request false now;
  };
}

unfoldable pub do_cmd_reject_request : Torrent → Link → List ℕ → Link
do_cmd_reject_request t x body =
    if not x.peer.shaked
    then x
    else if not x.peer.fast_extension
    then close_link t x
    else if not (length body == 12)
    then x
    else if not (index_of x.peer.my_request == word_at 0 body)
    then x
    else if x.peer.peer_choke_me
    then with_request x (reset_pending_request_at x.peer.my_request (word_at 4 body))
    else close_link t x

unfoldable pub do_cmd_suggest_piece : Torrent → Link → List ℕ → Link
do_cmd_suggest_piece t x body =
    let index = word_at 0 body in
    if not x.peer.shaked
    then x
    else if not x.peer.fast_extension
    then close_link t x
    else if not (length body == 4)
    then x
    else if leb 2147483648 index || leb t.piece_count index
    then close_link t x
    else if ltb (length x.peer.suggest_list) 20
    then record x { peer = record x.peer { suggest_list = x.peer.suggest_list ++ index ∷ [] } }
    else x

unfoldable pub do_cmd_allow_fast : Torrent → Link → List ℕ → Link
do_cmd_allow_fast t x body =
    let index = word_at 0 body in
    if not x.peer.fast_extension
    then close_link t x
    else if not (length body == 4)
    then x
    else if leb 2147483648 index || leb t.piece_count index
    then close_link t x
    else record x {
      peer = record x.peer { allow_fast_list = x.peer.allow_fast_list ++ index ∷ [] };
    }
