-- ===== src/Peer/Arrivals/Balance.antt =====
-- The tasks of the storage through the whole connection of one peer of benliud_bt/src/BTPeer.cpp.
use benliud.Common.{
  ℕ, ◌+◌, ◌≡◌, ◌⊎◌, refl, ap, subst, ◌∙◌, Bool, true, false, not, List, none, bit, if_cases,
  if_true, ==_refl,
}
use benliud.SingleRequest.{reset, empty, is_finish, get_piece_data}
use benliud.Storage.{take_task}
use benliud.Storage.Tasks.{IsMap, asked, asked-add_task}
use benliud.Storage.Depot.{Torrent, hash_ok, check_out_orphan_data}
use benliud.Storage.Depot.Downloading.{write_piece_tasks, check_out_tasks}
use benliud.Peer.Downloads.{
  Link, index_of, close_link, cancel_my_request, do_my_request, take_in, use_orphans,
  check_out_orphans, begin_request, start_task, with_storage,
}
use benliud.Peer.Arrivals.{
  do_cmd_piece, do_cmd_choke, do_cmd_unchoke, do_cmd_reject_request, do_cmd_suggest_piece,
  do_cmd_allow_fast,
}
use benliud.Peer.Arrivals.Held.{
  Owed, add_task-Owed, IsOwed, close_link-IsOwed, cancel_my_request-IsOwed, do_my_request-IsOwed,
  start_task-IsOwed,
}
use benliud.Peer.Arrivals.Messages.{
  do_cmd_piece-IsOwed, do_cmd_choke-IsOwed, do_cmd_unchoke-IsOwed, do_cmd_reject_request-IsOwed,
  do_cmd_suggest_piece-IsOwed, do_cmd_allow_fast-IsOwed,
}

-- The storage with one more task for a piece.
abbrev pub given : Link → ℕ → Link
given x index = with_storage x (take_task x.depot.storage index)

-- What one peer does with its task. It is given one when it has none; orphans that complete the piece
-- at once are left out.
pub data Step (t : Torrent) (x : Link) : Link → Type 0 where
  starts :
      (index : ℕ) (coop fast : Bool) (now : ℕ)
      → x.peer.my_request.index ≡ none
      → (coop ≡ true)
        ⊎ ((check_out_orphans t
              (record (given x index) { peer = begin_request t x.peer index coop fast })).1
            ≡ false)
      → Step t x (start_task t (given x index) index coop fast now)
  goes_on : (now : ℕ) → Step t x (do_my_request t x now)
  gets_piece : (body : List ℕ) (now : ℕ) → Step t x (do_cmd_piece t x body now)
  is_choked : (body : List ℕ) (now : ℕ) → Step t x (do_cmd_choke x body now)
  is_unchoked : (body : List ℕ) (now : ℕ) → Step t x (do_cmd_unchoke x body now)
  is_suggested : (body : List ℕ) → Step t x (do_cmd_suggest_piece t x body)
  is_allowed : (body : List ℕ) → Step t x (do_cmd_allow_fast t x body)
  is_rejected : (body : List ℕ) → Step t x (do_cmd_reject_request t x body)
  cancels : Step t x (cancel_my_request t x)
  closes : Step t x (close_link t x)

pub data Reach (t : Torrent) (x : Link) : Link → Type 0 where
  here : Reach t x x
  next : {y z : Link} → Reach t x y → Step t y z → Reach t x z

Step-IsOwed :
    (t : Torrent) (others : ℕ → ℕ) {x y : Link} → Step t x y → IsOwed t others x → IsOwed t others y
unfolding with_storage take_task
Step-IsOwed t others {x} (starts index coop fast now e c) o =
    start_task-IsOwed t others (given x index) index coop fast now c (
      add_task-Owed t.piece_count others index x.depot.storage.downloading
        (subst (λ i. Owed t.piece_count others i x.depot.storage.downloading) e o))
Step-IsOwed t others {x} (goes_on now) o = do_my_request-IsOwed t others x now o
Step-IsOwed t others {x} (gets_piece body now) o = do_cmd_piece-IsOwed t others x body now o
Step-IsOwed t others {x} (is_choked body now) o = do_cmd_choke-IsOwed t others x body now o
Step-IsOwed t others {x} (is_unchoked body now) o = do_cmd_unchoke-IsOwed t others x body now o
Step-IsOwed t others {x} (is_suggested body) o = do_cmd_suggest_piece-IsOwed t others x body o
Step-IsOwed t others {x} (is_allowed body) o = do_cmd_allow_fast-IsOwed t others x body o
Step-IsOwed t others {x} (is_rejected body) o = do_cmd_reject_request-IsOwed t others x body o
Step-IsOwed t others {x} cancels o = cancel_my_request-IsOwed t others x o
Step-IsOwed t others {x} closes o = close_link-IsOwed t others x o

-- If for each piece the storage counts the tasks of the others, and one more for the piece that the peer
-- asks for, then it stays so through a connection: a task is given back once, also when the connection
-- ends early. The torrent has less than 2^32 - 1 pieces, and the peer is given no piece that orphans
-- complete at once.
pub Reach-IsOwed :
    (t : Torrent) (others : ℕ → ℕ) {x y : Link}
    → Reach t x y
    → IsOwed t others x
    → IsOwed t others y
Reach-IsOwed t others here o = o
Reach-IsOwed t others (next r s) o = Step-IsOwed t others s (Reach-IsOwed t others r o)

completed :
    (t : Torrent) (y : Link)
    → (check_out_orphans t y).1 ≡ true
    → (empty (check_out_orphans t y).0.peer.my_request ≡ true)
      × ((check_out_orphans t y).0.depot.storage.downloading ≡ y.depot.storage.downloading)
unfolding check_out_orphans use_orphans reset empty
completed t y e =
    let out = check_out_orphan_data y.depot (index_of y.peer.my_request) in
    let r = take_in y.peer.my_request out.1 in
    let P = λ (z : Link × Bool).
      z.1 ≡ true
      → (empty z.0.peer.my_request ≡ true)
        × (z.0.depot.storage.downloading ≡ y.depot.storage.downloading) in
    if_cases P (not (is_finish r)) _ _ (λ _ f. absurd (cc))
      (λ _.
        if_cases P (hash_ok t (index_of r) (get_piece_data r)) _ _
          (λ _ _. (
            refl,
            write_piece_tasks out.0 (index_of r) (get_piece_data r)
                ∙ check_out_tasks y.depot (index_of y.peer.my_request),
          ))
          (λ _ f. absurd (cc)))
      e

-- When orphans complete a piece that a peer is given, for it alone, the request is empty again and the
-- task is still counted: the storage counts one more peer for the piece than before, and none asks for
-- it. The map of the tasks is in ascending order and counts one peer at least for each of its pieces.
pub asked-start_task :
    (t : Torrent) (x : Link) (index : ℕ) (fast : Bool) (now : ℕ)
    → IsMap x.depot.storage.downloading
    → (check_out_orphans t
        (record (given x index) { peer = begin_request t x.peer index false fast })).1
      ≡ true
    → let y = start_task t (given x index) index false fast now in
      (empty y.peer.my_request ≡ true)
      × (asked index y.depot.storage.downloading ≡ asked index x.depot.storage.downloading + 1)
unfolding start_task with_storage take_task
asked-start_task t x index fast now m e =
    let y = record (given x index) { peer = begin_request t x.peer index false fast } in
    let done = completed t y e in
    let same =
      if_true (check_out_orphans t y).1 (check_out_orphans t y).0
        (do_my_request t (check_out_orphans t y).0 now) e in
    (
      ap (λ (z : Link). empty z.peer.my_request) same ∙ done.0,
      ap (λ (z : Link). asked index z.depot.storage.downloading) same
          ∙ ap (asked index) done.1
          ∙ asked-add_task index index x.depot.storage.downloading m
          ∙ ap (λ b. asked index x.depot.storage.downloading + bit b) (==_refl index),
    )
