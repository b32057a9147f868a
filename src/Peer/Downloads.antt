-- ===== src/Peer/Downloads.antt =====
-- The requests that a peer makes, and the data it gets, in benliud_bt/src/BTPeer.cpp. The choice of
-- pieces, the tasks and the pieces themselves are those of the storage.
use benliud.Common.{
  ℕ, zero, suc, ◌+◌, Bool, true, false, not, List, [], ◌∷◌, ◌++◌, Option, none, some, length, ltb,
  ◌==◌, if◌then◌else◌,
}
use benliud.Piece.{BtPiece}
use benliud.SingleRequest.{
  SingleRequest, init, reset, empty, is_finish, get_piece_data, get_task, is_pending_request,
  mark_pending_request, set_virtual_data, get_pending_request,
}
use benliud.SingleRequest.Alien.{Orphan, set_alien, clear_alien, get_orphans}
use benliud.Storage.{Storage, Task, Chance, task, get_piece_task, get_appointed_task}
use benliud.Storage.Depot.{
  Torrent, Depot, check_out_orphan_data, check_in_orphan_data, abandon_task, write_piece, hash_ok,
  get_share_task,
}
use benliud.Peer.{send_request, send_piece_cancel, interested_packet}

-- The members of `CBTPeer` that speak of downloads; `linked` is `m_LinkStatus==LS_CONNOK`, `shaked` is
-- `IsShaked()`, and `coorperate` is a member of `m_MyRequest`.
pub record Downloader : Type 0 where
  pub linked : Bool
  pub shaked : Bool
  pub fast_extension : Bool
  pub peer_choke_me : Bool
  pub me_interest_peer : Bool
  pub peer_iip : ℕ
  pub peer_bit_set : BtPiece
  pub suggest_list : List ℕ
  pub allow_fast_list : List ℕ
  pub coorperate : Bool
  pub my_request : SingleRequest

-- The peer, the storage, and what the peer has sent.
pub record Link : Type 0 where
  pub peer : Downloader
  pub depot : Depot
  pub sent : List ℕ

-- `PENDING_REQUEST_SIZE`
abbrev pub pending_request_size : ℕ
pending_request_size = 12

-- `GetIndex()` as an unsigned int; it is -1 for no piece.
unfoldable pub index_of : SingleRequest → ℕ
index_of r = elim r.index [ none ↦ 4294967295 | some i ↦ i ]

unfoldable pub with_request : Link → SingleRequest → Link
with_request x r = record x { peer = record x.peer { my_request = r } }

unfoldable pub give_back : Torrent → Link → Link
give_back t x = record x {
  peer = record x.peer { my_request = reset x.peer.my_request };
  depot = abandon_task t x.depot (index_of x.peer.my_request);
}

-- `SaveOrphanToStorage`
unfoldable pub save_orphan : Link → Link
save_orphan x =
    let orphans = get_orphans x.peer.my_request [] in
    if x.peer.coorperate
    then x
    else if length orphans == 0
    then x
    else record x { depot = check_in_orphan_data x.depot (index_of x.peer.my_request) orphans }

-- `OnConnectionClose`
unfoldable pub on_connection_close : Torrent → Link → Link
on_connection_close t x = if empty x.peer.my_request then x else give_back t (save_orphan x)

-- `OnClose`
unfoldable pub close_link : Torrent → Link → Link
close_link t x =
    let y = if x.peer.linked then on_connection_close t x else x in
    record y { peer = record y.peer { linked = false; me_interest_peer = false } }

unfoldable pub send_cancels : ℕ → List (ℕ × ℕ) → List ℕ
send_cancels index [] = []
send_cancels index ((offset, len) ∷ os) =
    send_piece_cancel index offset len ++ send_cancels index os

-- `CancelMyRequest`
unfoldable pub cancel_my_request : Torrent → Link → Link
cancel_my_request t x =
    let r = x.peer.my_request in
    let cancels =
      send_cancels (index_of r)
        (get_pending_request r (pending_request_size + pending_request_size)) in
    if empty r then x else give_back t (record x { sent = x.sent ++ cancels })

-- The loop of `DoMyRequest` for a piece that is asked of this peer only, with fuel for the rounds.
unfoldable pub send_tasks : ℕ → SingleRequest → ℕ → SingleRequest × List ℕ
send_tasks zero r now = (r, [])
send_tasks (suc fuel) r now =
    if ltb r.pending_count pending_request_size
    then elim (get_task r now).1 [
      | none ↦ (r, [])
      | some o ↦
          let rest = send_tasks fuel (get_task r now).0 now in
          (rest.0, send_request (index_of r) o.0 o.1 ++ rest.1)
    ]
    else (r, [])

unfoldable pub ask_alone : Link → ℕ → Link
ask_alone x now =
    let rest = send_tasks pending_request_size x.peer.my_request now in
    record x { peer = record x.peer { my_request = rest.0 }; sent = x.sent ++ rest.1 }

-- A block of the storage's request that is marked in ours, and asked for.
unfoldable pub ask_marked : Link → ℕ × ℕ → ℕ → Link
ask_marked x o now =
    let r = x.peer.my_request in
    record x {
      peer = record x.peer { my_request = (mark_pending_request r o.0 now).0 };
      sent = x.sent ++ send_request (index_of r) o.0 o.1;
    }

-- The loop for a piece that several peers are asked for, with fuel for the rounds.
unfoldable pub ask_shared : ℕ → Torrent → Link → ℕ → Link
ask_shared zero t x now = x
ask_shared (suc fuel) t x now =
    let r = x.peer.my_request in
    let share = get_share_task t x.depot (index_of r) in
    let y = record x { depot = share.0 } in
    if not (ltb r.pending_count pending_request_size) then x else elim share.1 [
      | none ↦ if r.pending_count == 0 then close_link t y else y
      | some o ↦
          let again = ask_shared fuel t (ask_marked y o now) now in
          if is_pending_request r o.0
          then ask_alone y now
          else if (mark_pending_request r o.0 now).1
          then again
          else y
    ]

-- `DoMyRequest`
unfoldable pub do_my_request : Torrent → Link → ℕ → Link
do_my_request t x now =
    if x.peer.coorperate then ask_shared pending_request_size t x now else ask_alone x now

-- The loop of `CheckOutOrphanData`.
unfoldable pub take_in : SingleRequest → List Orphan → SingleRequest
take_in r [] = r
take_in r (o ∷ os) = take_in (set_alien r o.source o.offset o.bytes) os

-- The end of `CheckOutOrphanData`, with the request as the orphans have left it.
unfoldable pub use_orphans : Torrent → Link → SingleRequest → Link × Bool
use_orphans t x r =
    if not (is_finish r)
    then (with_request x r, false)
    else if hash_ok t (index_of r) (get_piece_data r)
    then (
      record x {
        peer = record x.peer { my_request = reset r };
        depot = write_piece x.depot (index_of r) (get_piece_data r);
      },
      true,
    )
    else (with_request x (clear_alien r x.peer.peer_iip), false)

-- `CheckOutOrphanData`
unfoldable pub check_out_orphans : Torrent → Link → Link × Bool
check_out_orphans t x =
    let out = check_out_orphan_data x.depot (index_of x.peer.my_request) in
    use_orphans t (record x { depot = out.0 }) (take_in x.peer.my_request out.1)

-- What `CheckMyRequest` does with a task it was given.
unfoldable pub begin_request : Torrent → Downloader → ℕ → Bool → Bool → Downloader
begin_request t p index coop fast =
    let r = record (init p.my_request (some index) (t.piece_length index)) { allow_fast = fast } in
    record p {
      coorperate = coop;
      my_request = elim (t.virtual_range index) [
        | none ↦ r
        | some range ↦ set_virtual_data r range.0 range.1
      ];
    }

unfoldable pub start_task : Torrent → Link → ℕ → Bool → Bool → ℕ → Link
start_task t x index coop fast now =
    let y = record x { peer = begin_request t x.peer index coop fast } in
    if coop
    then do_my_request t y now
    else (let out = check_out_orphans t y in if out.1 then out.0 else do_my_request t out.0 now)

unfoldable pub start_found : Torrent → Link → Task → Bool → ℕ → Link
start_found t x (task index coop) fast now = start_task t x index coop fast now

unfoldable pub with_storage : Link → Storage → Link
with_storage x s = record x { depot = record x.depot { storage = s } }

-- The loops over `m_SuggestList` and `m_AllowFastList`: the rest of the list, and the task for the first
-- piece that the storage gives one for.
unfoldable pub appointed : Storage → List ℕ → List ℕ × Storage × Option Task
appointed s [] = ([], s, none)
appointed s (i ∷ is) = elim (get_appointed_task s i).1 [
  | none ↦ appointed s is
  | some k ↦ (is, (get_appointed_task s i).0, some k)
]

-- `sendInterested(false)`
unfoldable pub lose_interest : Link → Link
lose_interest x =
    if x.peer.me_interest_peer
    then record x {
      peer = record x.peer { me_interest_peer = false };
      sent = x.sent ++ interested_packet false;
    }
    else x

-- The last part for a peer that does not choke us: a piece of the storage's choice.
unfoldable pub ask_storage : Torrent → Link → Chance → ℕ → Link
ask_storage t x chance now =
    let choice = get_piece_task x.depot.storage x.peer.peer_bit_set chance in
    elim choice.1 [
      | none ↦ lose_interest x
      | some k ↦ start_found t (with_storage x choice.0) k false now
    ]

unfoldable pub ask_suggested : Torrent → Link → Chance → ℕ → Link
ask_suggested t x chance now =
    let found = appointed x.depot.storage x.peer.suggest_list in
    let y = with_storage (record x { peer = record x.peer { suggest_list = found.0 } }) found.1 in
    elim found.2 [ none ↦ ask_storage t y chance now | some k ↦ start_found t y k false now ]

unfoldable pub ask_allowed : Torrent → Link → ℕ → Link
ask_allowed t x now =
    let found = appointed x.depot.storage x.peer.allow_fast_list in
    let y =
      with_storage (record x { peer = record x.peer { allow_fast_list = found.0 } }) found.1 in
    elim found.2 [ none ↦ y | some k ↦ start_found t y k true now ]

-- `CheckMyRequest`
unfoldable pub check_my_request : Torrent → Link → Chance → ℕ → Link
check_my_request t x chance now =
    if not x.peer.shaked
    then x
    else if not x.peer.me_interest_peer
    then x
    else if not x.peer.peer_choke_me
    then (if not (empty x.peer.my_request)
        then do_my_request t x now
        else if x.peer.fast_extension
        then ask_suggested t x chance now
        else ask_storage t x chance now)
    else if not x.peer.fast_extension
    then x
    else if empty x.peer.my_request
    then ask_allowed t x now
    else if x.peer.my_request.allow_fast
    then do_my_request t x now
    else x
