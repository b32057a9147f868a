-- ===== src/Peer/Arrivals/Tests.antt =====
-- Runs of the download side of BTPeer.cpp, on a torrent of four pieces.
use benliud.Common.{
  ℕ, ◌+◌, ◌≤◌, ◌≡◌, refl, arith, true, false, List, [], ◌∷◌, ◌++◌, none, some, replicate, take, inl,
  inr,
}
use benliud.Common.Int.{pos}
use benliud.Common.Search.{find_first, update_first, all}
use benliud.Piece.{BtPiece, is_set}
use benliud.Piece
use benliud.Piece.Laws.{init-IsValid}
use benliud.PieceSum
use benliud.PieceSum.{get_value, nonzero}
use benliud.SingleRequest.{
  SingleRequest, new, init, reset, empty, set_data, get_task, is_finish, get_piece_data, all_data,
  decompose, block_at, is_free, takes, no_bytes,
}
use benliud.SingleRequest.Alien.{Orphan, set_alien}
use benliud.SingleRequest.Calls.{gets_task, sets_data, run, step}
use benliud.SingleRequest.Requests.{IsForeign}
use benliud.ShareRequest.{equal}
use benliud.Storage.{count_of, take_task}
use benliud.Storage.Tasks.{asked}
use benliud.Storage.Depot.{
  Torrent, Depot, find_piece, erase_piece, with_orphans, keys, hash_ok, check_out_orphan_data,
}
use benliud.Storage.Depot.Verified.{IsVerified}
use benliud.Peer.{htonl}
use benliud.Peer.Downloads.{
  Downloader, Link, index_of, send_tasks, begin_request, check_out_orphans, take_in, use_orphans,
  start_task, with_storage, close_link,
}
use benliud.Peer.Arrivals.{finish_piece, got_block, do_cmd_piece}
use benliud.Peer.Arrivals.Turns.{gets_piece, closes, serve, serve-IsVerified}
use benliud.Peer.Arrivals.Asking.{IsAsked, send_tasks-IsAsked}
use benliud.Peer.Arrivals.Completion.{IsStored, finish_piece-IsStored, got_block-closes}
use benliud.Peer.Arrivals.Held.{IsOwed}
use benliud.Peer.Arrivals.Balance.{
  Step, Reach, here, next, starts, Reach-IsOwed, given, asked-start_task,
}
use benliud.Peer.Arrivals.Balance

sum : List ℕ → ℕ
sum [] = 0
sum (x ∷ xs) = x + sum xs

-- Pieces of three bytes; the hash is their sum.
abbrev torrent : Torrent
torrent = record {
  piece_count = 4;
  piece_length = λ i. 3;
  piece_hash = λ i. 6 ∷ [];
  sha1_string = λ bytes. sum bytes ∷ [];
  virtual_range = λ i. none;
}

abbrev piece : List ℕ
piece = 1 ∷ 2 ∷ 3 ∷ []

abbrev orphan : Orphan
orphan = record { index = some 2; offset = 0; source = 9; bytes = piece }

abbrev depot : Depot
depot = record {
  storage = record {
    finished = Piece.init 4;
    priority = PieceSum.init 4 (pos 1);
    piece_sum = PieceSum.init 4 (pos 1);
    downloading = [];
    orphans = [];
  };
  orphan_map = [];
  shares = [];
  write_cache = [];
  waste_byte = 0;
}

abbrev request : SingleRequest
request = init (reset (new 0 0 false)) (some 2) 3

abbrev peer : Downloader
peer = record {
  linked = true;
  shaked = true;
  fast_extension = false;
  peer_choke_me = false;
  me_interest_peer = true;
  peer_iip = 7;
  peer_bit_set = Piece.init 4;
  suggest_list = [];
  allow_fast_list = [];
  coorperate = false;
  my_request = request;
}

abbrev idle : Link
idle = record { peer = record peer { my_request = new 0 0 false }; depot = depot; sent = [] }

abbrev body : List ℕ
body = htonl 2 ++ htonl 0 ++ piece

depot-IsVerified : IsVerified torrent (Piece.init 4) depot
depot-IsVerified = record { valid = init-IsValid 4; kept = λ i h s. inl s }

serve-IsVerified_example :
    IsVerified torrent
      (Piece.init 4)
      (serve torrent depot ((peer, gets_piece body 5) ∷ (peer, closes) ∷ []))
serve-IsVerified_example =
    serve-IsVerified torrent (Piece.init 4) depot ((peer, gets_piece body 5) ∷ (peer, closes) ∷ [])
      depot-IsVerified

send_tasks-IsAsked_example : IsAsked request (send_tasks 12 request 5)
send_tasks-IsAsked_example = send_tasks-IsAsked request 5 none_asked
  where
    none_asked : request.pending_count ≤ 12
    none_asked = unfold init in omega arith

-- The request after its only block was asked for and has come.
abbrev complete : SingleRequest
complete = run request (gets_task 4 ∷ sets_data 0 piece 5 ∷ [])

abbrev at_end : Link
at_end = record { peer = record peer { my_request = complete }; depot = depot; sent = [] }

complete-is_finish : is_finish complete ≡ true
unfolding is_finish init reset new decompose block_at set_data find_first update_first takes all
    no_bytes run step get_task is_free
complete-is_finish = refl

unset : is_set (Piece.init 4) 2 ≡ false
unfolding is_set Piece.init Piece.cells Piece.test_bit
unset = refl

wanted : nonzero (get_value (PieceSum.init 4 (pos 1)) 2) ≡ true
unfolding nonzero get_value PieceSum.init
wanted = refl

six : torrent.sha1_string piece ≡ torrent.piece_hash 2
unfolding sum
six = refl

finish_piece-IsStored_example :
    IsStored 2 piece (finish_piece torrent at_end 2).depot
    × (empty (finish_piece torrent at_end 2).peer.my_request ≡ true)
finish_piece-IsStored_example =
    finish_piece-IsStored torrent at_end 2 piece (new 0 0 false)
      (gets_task 4 ∷ sets_data 0 piece 5 ∷ []) refl (tt, (refl, tt)) complete-is_finish six
      (init-IsValid 4) unset wanted

-- A torrent of pieces of two blocks; the hash is the first byte.
abbrev long : Torrent
long = record torrent {
  piece_length = λ i. 16386;
  piece_hash = λ i. 5 ∷ [];
  sha1_string = λ bytes. take 1 bytes;
}

-- Another peer has left a first block with a wrong first byte.
abbrev spoilt : SingleRequest
spoilt = set_alien (init (reset (new 0 0 false)) (some 2) 16386) 9 0 (replicate 16384 4)

abbrev honest : Link
honest = record { peer = record peer { my_request = spoilt }; depot = depot; sent = [] }

spoilt-IsForeign : IsForeign 7 spoilt
unfolding set_alien init reset new decompose block_at takes update_first
spoilt-IsForeign = (refl, (refl, tt))

spoilt_known : (set_data spoilt 16384 (0 ∷ 0 ∷ []) 5).1 ≡ true
unfolding set_alien init reset new decompose block_at takes update_first set_data find_first
spoilt_known = refl

spoilt_finished : is_finish (set_data spoilt 16384 (0 ∷ 0 ∷ []) 5).0 ≡ true
unfolding set_alien init reset new decompose block_at takes update_first set_data find_first
    is_finish all no_bytes
spoilt_finished = refl

spoilt_wrong : hash_ok long 2 (get_piece_data (set_data spoilt 16384 (0 ∷ 0 ∷ []) 5).0) ≡ false
unfolding set_alien init reset new decompose block_at takes update_first set_data find_first hash_ok
    get_piece_data all_data equal
spoilt_wrong = refl

got_block-closes_example : (got_block long honest 2 16384 (0 ∷ 0 ∷ []) 5).peer.linked ≡ false
got_block-closes_example =
    got_block-closes long honest 2 16384 (0 ∷ 0 ∷ []) 5 refl spoilt_known spoilt_finished
      spoilt_wrong spoilt-IsForeign

abbrev no_others : ℕ → ℕ
no_others i = 0

idle-IsOwed : IsOwed torrent no_others idle
unfolding new asked count_of
idle-IsOwed = record { few = omega arith; ordered = tt; counted = λ i h. refl }

-- The peer is given piece 2, gets its block, and the connection ends.
abbrev begun : Link
begun = start_task torrent (given idle 2) 2 false false 4

no_orphan :
    (check_out_orphans torrent
      (record (given idle 2) { peer = begin_request torrent idle.peer 2 false false })).1
    ≡ false
unfolding check_out_orphans check_out_orphan_data find_piece take_in use_orphans begin_request
    is_finish init new decompose block_at all no_bytes with_storage take_task
no_orphan = refl

Reach-IsOwed_example :
    IsOwed torrent no_others (close_link torrent (do_cmd_piece torrent begun body 5))
unfolding new
Reach-IsOwed_example =
    Reach-IsOwed torrent no_others
      (next
        (next (next here (starts 2 false false 4 refl (inr no_orphan))) (Balance.gets_piece body 5))
        Balance.closes)
      idle-IsOwed

-- A peer has left the whole of piece 2.
abbrev left_over : Link
left_over = record idle { depot = record depot { orphan_map = (2, orphan ∷ []) ∷ [] } }

completed :
    (check_out_orphans torrent
      (record (given left_over 2) { peer = begin_request torrent left_over.peer 2 false false })).1
    ≡ true
unfolding check_out_orphans check_out_orphan_data find_piece take_in use_orphans begin_request
    is_finish init new decompose block_at all no_bytes with_storage take_task set_alien takes
    update_first hash_ok get_piece_data all_data equal sum index_of with_orphans erase_piece keys
completed = refl

asked-start_task_example :
    let y = start_task torrent (given left_over 2) 2 false false 4 in
    (empty y.peer.my_request ≡ true)
    × (asked 2 y.depot.storage.downloading ≡ asked 2 left_over.depot.storage.downloading + 1)
asked-start_task_example = asked-start_task torrent left_over 2 false 4 tt completed
