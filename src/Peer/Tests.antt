-- ===== src/Peer/Tests.antt =====
-- Runs of the functions of BTPeer.cpp.
use benliud.Common.{
  ℕ, ◌+◌, ◌≤◌, ◌<◌, ◌≡◌, refl, sym, subst, arith, true, false, ◌||◌, List, [], ◌∷◌, ◌++◌, some,
  length, replicate, length-replicate, ◌==◌, if◌then◌else◌,
}
use benliud.Common.Search.{find_first, remove_first}
use benliud.SingleRequest.{chunk_len}
use benliud.Peer.{
  htonl, ntohl, word_at, packet, block_words, send_keep_alive, send_request, send_bitfield,
  un_choke_packet,
}
use benliud.Peer.Packets.{
  Handlers, waiting, bad_data, front, front_of, packet_round, process_data, resume, reads,
  recv_data,
}
use benliud.Peer.Chunks.{recv_data_append}
use benliud.Peer.Messages.{
  Message, alive, un_choke, request, obey_all, recv_all, recv_all-joined, recv_data-send_bitfield,
}
use benliud.Peer.Uploads.{
  BtPeer, PieceStore, contains, is_me_allow_fast_piece, asks, queue_request, request_block,
  do_cmd_request, cancel_block, do_cmd_cancel,
}
use benliud.Peer.Requests.{IsQueue}
use benliud.Peer.Queue.{got_request, got_cancel, checking, choking, run, run-IsQueue}
use benliud.Peer.Serve.{Others}

-- A peer that notes the numbers of the commands.
abbrev log : Handlers (List ℕ)
log = record {
  on_cmd = λ p id body. p ++ id ∷ body;
  active = λ p. p;
  close = λ p. p ++ 999 ∷ [];
  is_open = λ p. true;
}

abbrev messages : List Message
messages = un_choke ∷ alive ∷ request 1 16384 3 ∷ []

front_test :
    recv_data log (waiting [] []) (0 ∷ 0 ∷ 0 ∷ 2 ∷ 4 ∷ 7 ∷ 0 ∷ []) ≡ waiting (4 ∷ 7 ∷ []) (0 ∷ [])
unfolding recv_data reads resume process_data packet_round front front_of ntohl
front_test = refl

front_too_long_test : recv_data log (waiting [] []) (0 ∷ 0 ∷ 64 ∷ 13 ∷ []) ≡ bad_data (999 ∷ [])
unfolding recv_data reads resume process_data packet_round front front_of ntohl
front_too_long_test = refl

recv_data_append_example :
    recv_data log (recv_data log (waiting [] []) (0 ∷ 0 ∷ [])) (0 ∷ 1 ∷ 2 ∷ []) ≡ (
      if reads log (recv_data log (waiting [] []) (0 ∷ 0 ∷ []))
      then recv_data log (waiting [] []) ((0 ∷ 0 ∷ []) ++ (0 ∷ 1 ∷ 2 ∷ []))
      else recv_data log (waiting [] []) (0 ∷ 0 ∷ []))
recv_data_append_example = recv_data_append log (waiting [] []) (0 ∷ 0 ∷ []) (0 ∷ 1 ∷ 2 ∷ [])

-- The bytes of the messages, cut in the middle of the first one.
abbrev chunks : List (List ℕ)
chunks =
    (0 ∷ 0 ∷ 0 ∷ [])
    ∷ (1 ∷ 1 ∷ 0 ∷ 0 ∷ 0 ∷ 0 ∷ 0 ∷ 0 ∷ [])
    ∷ (0 ∷ 13 ∷ 6 ∷ 0 ∷ 0 ∷ 0 ∷ 1 ∷ 0 ∷ 0 ∷ 64 ∷ 0 ∷ 0 ∷ 0 ∷ 0 ∷ 3 ∷ [])
    ∷ []

recv_all-joined_example :
    recv_all log (waiting [] []) chunks ≡ waiting (obey_all log [] messages) []
unfolding send_keep_alive un_choke_packet send_request packet block_words htonl
recv_all-joined_example =
    recv_all-joined log [] messages chunks (tt, (tt, (tt, tt))) (refl, (refl, (refl, refl))) refl

abbrev long_bitfield : List ℕ
long_bitfield = replicate 16396 255

recv_data-send_bitfield_example :
    recv_data log (waiting [] []) (send_bitfield long_bitfield ++ []) ≡ bad_data (999 ∷ [])
recv_data-send_bitfield_example =
    recv_data-send_bitfield log [] long_bitfield []
      (subst (λ n. 4 + 8 + chunk_len ≤ n) (sym (length-replicate {A = ℕ} 16396 255)) (omega arith))
      (subst (λ n. n < 4294967295) (sym (length-replicate {A = ℕ} 16396 255)) (omega arith))

-- A torrent of four pieces; the storage has the even ones, and reads zeros.
abbrev storage : PieceStore
storage = record {
  piece_count = 4;
  is_finished_piece = λ i. (i == 0) || (i == 2);
  read_data = λ index offset len. some (replicate len 0);
}

abbrev peer : BtPeer
peer = record {
  linked = true;
  shaked = true;
  send_bit_set = true;
  fast_extension = false;
  upload_mode = false;
  seed = false;
  me_choke_peer = false;
  me_interest_peer = false;
  peer_interest_me = true;
  me_allow_fast_list = [];
  peer_request_list = [];
}

peer-IsQueue : IsQueue storage peer
peer-IsQueue = record { few = omega arith; distinct = tt; serves = tt; choked = λ f c. refl }

abbrev asked : List ℕ
asked = 0 ∷ 0 ∷ 0 ∷ 2 ∷ 0 ∷ 0 ∷ 0 ∷ 0 ∷ 0 ∷ 0 ∷ 0 ∷ 3 ∷ []

run-IsQueue_example :
    IsQueue storage
      (run storage peer (got_request asked ∷ got_request asked ∷ checking false ∷ choking ∷ []))
run-IsQueue_example =
    run-IsQueue storage peer (got_request asked ∷ got_request asked ∷ checking false ∷ choking ∷ [])
      peer-IsQueue

queue_test :
    length (run storage peer (got_request asked ∷ got_request asked ∷ [])).peer_request_list ≡ 1
unfolding do_cmd_request request_block queue_request is_me_allow_fast_piece contains asks find_first
    word_at ntohl
queue_test = refl

cancel_test : (run storage peer (got_request asked ∷ got_cancel asked ∷ [])).peer_request_list ≡ []
unfolding do_cmd_request request_block queue_request is_me_allow_fast_piece contains asks find_first
    word_at ntohl do_cmd_cancel cancel_block remove_first
cancel_test = refl

abbrev ignore : Others
ignore = λ p id body. (p, [])
