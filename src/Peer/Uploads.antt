-- ===== src/Peer/Uploads.antt =====
-- The peer's requests in benliud_bt/src/BTPeer.cpp: which are queued, which are answered at once, and
-- which are rejected. The ticks of the last activity and the counts of bytes are left out.
use benliud.Common.{
  ℕ, Bool, true, false, not, ◌&&◌, ◌||◌, List, [], ◌∷◌, ◌++◌, Option, none, some, length, leb, ◌==◌,
  if◌then◌else◌,
}
use benliud.Common.Search.{find_first, remove_first}
use benliud.Peer.{
  word_at, choke_packet, un_choke_packet, interested_packet, send_piece_data, send_reject_request,
}

-- `TPeerBlockRequest`; `len` is its length.
pub record PeerBlockRequest : Type 0 where
  pub index : ℕ
  pub offset : ℕ
  pub len : ℕ

-- The members of `CBTPeer` that speak of uploads; `linked` is false once the connection is closed, and
-- `shaked` is `IsShaked()`.
pub record BtPeer : Type 0 where
  pub linked : Bool
  pub shaked : Bool
  pub send_bit_set : Bool
  pub fast_extension : Bool
  pub upload_mode : Bool
  pub seed : Bool
  pub me_choke_peer : Bool
  pub me_interest_peer : Bool
  pub peer_interest_me : Bool
  pub me_allow_fast_list : List ℕ
  pub peer_request_list : List PeerBlockRequest

-- What a peer asks of the storage.
pub record PieceStore : Type 0 where
  pub piece_count : ℕ
  pub is_finished_piece : ℕ → Bool
  pub read_data : ℕ → ℕ → ℕ → Option (List ℕ)

-- `PEER_REQUEST_SIZE`
abbrev pub peer_request_size : ℕ
peer_request_size = 24

unfoldable pub on_close : BtPeer → BtPeer
on_close p = record p { linked = false; me_interest_peer = false; peer_interest_me = false }

unfoldable pub contains : ℕ → List ℕ → Bool
contains index [] = false
contains index (i ∷ is) = if i == index then true else contains index is

-- `IsMeAllowFastPiece`
unfoldable pub is_me_allow_fast_piece : BtPeer → ℕ → Bool
is_me_allow_fast_piece p index = contains index p.me_allow_fast_list

-- `it->index == index && it->offset == offset`
unfoldable pub asks : ℕ → ℕ → PeerBlockRequest → Bool
asks index offset r = (r.index == index) && (r.offset == offset)

-- `ReadData(data, index, offset, len) && data.size() == len`, and the message with the data.
unfoldable pub answer : PieceStore → ℕ → ℕ → ℕ → Option (List ℕ)
answer s index offset len = elim (s.read_data index offset len) [
  | none ↦ none
  | some bytes ↦ if length bytes == len then some (send_piece_data index offset bytes) else none
]

-- `SendPieceData` when there is something to send.
unfoldable pub sent : Option (List ℕ) → List ℕ
sent none = []
sent (some bytes) = bytes

-- The end of `DoCmdRequest`: what is left to queue, or to reject.
unfoldable pub queue_request : PieceStore → BtPeer → ℕ → ℕ → ℕ → BtPeer × List ℕ
queue_request s p index offset len =
    let reject = send_reject_request p.fast_extension index offset len in
    elim (find_first (asks index offset) p.peer_request_list) [
      | some r ↦ (p, [])
      | none ↦
          if leb peer_request_size (length p.peer_request_list)
          then (p, reject)
          else if not (s.is_finished_piece index)
          then (p, reject)
          else (
            record p {
              peer_request_list =
                  p.peer_request_list ++ record { index = index; offset = offset; len = len } ∷ [];
            },
            [],
          )
    ]

-- `DoCmdRequest` on its three words; an index from 2^31 on is negative. The second result is what is
-- sent.
unfoldable pub request_block : PieceStore → BtPeer → ℕ → ℕ → ℕ → BtPeer × List ℕ
request_block s p index offset len =
    if leb 2147483648 index || leb s.piece_count index
    then (on_close p, [])
    else if p.fast_extension && is_me_allow_fast_piece p index
    then (p, sent (answer s index offset len))
    else if p.seed
    then (p, [])
    else if not p.fast_extension && p.me_choke_peer
    then (p, [])
    else if p.fast_extension && p.me_choke_peer
    then (p, send_reject_request p.fast_extension index offset len)
    else queue_request s p index offset len

unfoldable pub do_cmd_request : PieceStore → BtPeer → List ℕ → BtPeer × List ℕ
do_cmd_request s p body =
    if not p.shaked
    then (p, [])
    else if not (length body == 12)
    then (p, [])
    else if not p.send_bit_set
    then (p, [])
    else request_block s p (word_at 0 body) (word_at 4 body) (word_at 8 body)

unfoldable pub cancel_block : BtPeer → ℕ → ℕ → BtPeer
cancel_block p index offset = record p {
  peer_request_list = remove_first (asks index offset) p.peer_request_list;
}

unfoldable pub do_cmd_cancel : BtPeer → List ℕ → BtPeer
do_cmd_cancel p body =
    if length body == 12 then cancel_block p (word_at 0 body) (word_at 4 body) else p

unfoldable pub do_cmd_interested : BtPeer → List ℕ → BtPeer
do_cmd_interested p body =
    if p.shaked && (length body == 0) then record p { peer_interest_me = true } else p

unfoldable pub do_cmd_not_interested : BtPeer → List ℕ → BtPeer
do_cmd_not_interested p body =
    if p.shaked && (length body == 0)
    then (if p.upload_mode
        then on_close p
        else record p { peer_interest_me = false; peer_request_list = [] })
    else p

unfoldable pub send_un_choke : BtPeer → BtPeer × List ℕ
send_un_choke p = (record p { me_choke_peer = false }, un_choke_packet)

unfoldable pub send_choke : BtPeer → BtPeer × List ℕ
send_choke p = (
  record p {
    me_choke_peer = true;
    peer_request_list = if p.fast_extension then p.peer_request_list else [];
  },
  choke_packet,
)

unfoldable pub send_interested : BtPeer → Bool → BtPeer × List ℕ
send_interested p interested =
    if (p.me_interest_peer && interested) || (not p.me_interest_peer && not interested)
    then (p, [])
    else (record p { me_interest_peer = interested }, interested_packet interested)

-- `CheckPeerRequest`; `in_debt` is its tit-for-tat test. The second result is what is sent.
unfoldable pub check_peer_request : PieceStore → BtPeer → Bool → BtPeer × List ℕ
check_peer_request s p in_debt = if p.me_choke_peer then (p, []) else elim p.peer_request_list [
  | [] ↦ (p, [])
  | r ∷ rs ↦
      if in_debt
      then (p, [])
      else (record p { peer_request_list = rs }, sent (answer s r.index r.offset r.len))
]
