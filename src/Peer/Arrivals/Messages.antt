-- ===== src/Peer/Arrivals/Messages.antt =====
-- The tasks of the storage while one peer of benliud_bt/src/BTPeer.cpp handles the messages of the other
-- one.
use benliud.Common.{
  ℕ, ◌≡◌, refl, Bool, true, false, not, ◌||◌, List, length, drop, leb, ltb, ◌==◌, if◌then◌else◌,
  if_cases,
}
use benliud.Piece.{is_set}
use benliud.SingleRequest.{
  SingleRequest, set_data, is_finish, get_piece_data, reset_pending_request,
  reset_pending_request_at,
}
use benliud.SingleRequest.Alien.{have_alien, clear_alien}
use benliud.SingleRequest.Requests.{index-set_data, index-reset_pending_request_at}
use benliud.SingleRequest.Clock.{choke_notice}
use benliud.Storage.Depot.{Torrent, check_in_orphan, write_piece, hash_ok, submit_share_data}
use benliud.Storage.Depot.Downloading.{write_piece_tasks, check_in_tasks, submit_share_data_tasks}
use benliud.Peer.{word_at}
use benliud.Peer.Downloads.{Link, index_of, with_request, give_back}
use benliud.Peer.Arrivals.{
  finish_piece, got_block, piece_arrived, do_cmd_piece, do_cmd_choke, do_cmd_unchoke,
  do_cmd_reject_request, do_cmd_suggest_piece, do_cmd_allow_fast,
}
use benliud.Peer.Arrivals.Held.{
  IsOwed, same-IsOwed, give_back-IsOwed, close_link-IsOwed, cancel_my_request-IsOwed,
}

module _ (t : Torrent) (others : ℕ → ℕ) where
  finish_piece-IsOwed :
      (x : Link) (index : ℕ) → IsOwed t others x → IsOwed t others (finish_piece t x index)
  unfolding finish_piece with_request clear_alien
  finish_piece-IsOwed x index o =
      let P = IsOwed t others in
      let r = x.peer.my_request in
      let y = record x { depot = write_piece x.depot index (get_piece_data r) } in
      if_cases P (not (is_finish r)) _ _ (λ _. o)
        (λ _.
          if_cases P (hash_ok t index (get_piece_data r)) _ _
            (λ _. cancel_my_request-IsOwed t others y (
              same-IsOwed t others x y refl (write_piece_tasks x.depot index (get_piece_data r)) o))
            (λ _.
              if_cases P (have_alien r x.peer.peer_iip) _ _ (λ _. o)
                (λ _. close_link-IsOwed t others (give_back t x) (give_back-IsOwed t others x o))))

  got_block-IsOwed :
      (x : Link) (index offset : ℕ) (block : List ℕ) (now : ℕ)
      → IsOwed t others x
      → IsOwed t others (got_block t x index offset block now)
  unfolding got_block with_request
  got_block-IsOwed x index offset block now o =
      let P = IsOwed t others in
      let stored = set_data x.peer.my_request offset block now in
      let y = with_request x stored.0 in
      let more = submit_share_data t x.depot x.peer.peer_iip index offset block in
      let z = record y { depot = more.0 } in
      let w : P y =
        same-IsOwed t others x y (index-set_data x.peer.my_request offset block now) refl o in
      let u : P z =
        same-IsOwed t others y z refl
          (submit_share_data_tasks t x.depot x.peer.peer_iip index offset block) w in
      if_cases P (not stored.1) _ _ (λ _. close_link-IsOwed t others x o)
        (λ _.
          if_cases P x.peer.coorperate _ _
            (λ _.
              if_cases P more.1 _ _ (λ _. finish_piece-IsOwed z index u)
                (λ _. cancel_my_request-IsOwed t others z u))
            (λ _. finish_piece-IsOwed y index w))

  pub do_cmd_piece-IsOwed :
      (x : Link) (body : List ℕ) (now : ℕ)
      → IsOwed t others x
      → IsOwed t others (do_cmd_piece t x body now)
  unfolding do_cmd_piece piece_arrived check_in_orphan
  do_cmd_piece-IsOwed x body now o =
      let P = IsOwed t others in
      let index = word_at 0 body in
      if_cases P (not x.peer.shaked) _ _ (λ _. o)
        (λ _.
          if_cases P (leb (length body) 8) _ _ (λ _. close_link-IsOwed t others x o)
            (λ _.
              if_cases P (leb 2147483648 index || leb t.piece_count index) _ _
                (λ _. close_link-IsOwed t others x o)
                (λ _.
                  if_cases P (is_set x.depot.storage.finished index) _ _ (λ _. o)
                    (λ _.
                      if_cases P (not (index == index_of x.peer.my_request)) _ _
                        (λ _.
                          same-IsOwed t others x
                            (record x {
                              depot =
                                  check_in_orphan x.depot index x.peer.peer_iip (word_at 4 body)
                                    (drop 8 body);
                            })
                            refl (check_in_tasks x.depot index _) o)
                        (λ _. got_block-IsOwed x index (word_at 4 body) (drop 8 body) now o)))))

  pub do_cmd_reject_request-IsOwed :
      (x : Link) (body : List ℕ)
      → IsOwed t others x
      → IsOwed t others (do_cmd_reject_request t x body)
  unfolding do_cmd_reject_request with_request
  do_cmd_reject_request-IsOwed x body o =
      let P = IsOwed t others in
      if_cases P (not x.peer.shaked) _ _ (λ _. o)
        (λ _.
          if_cases P (not x.peer.fast_extension) _ _ (λ _. close_link-IsOwed t others x o)
            (λ _.
              if_cases P (not (length body == 12)) _ _ (λ _. o)
                (λ _.
                  if_cases P (not (index_of x.peer.my_request == word_at 0 body)) _ _ (λ _. o)
                    (λ _.
                      if_cases P x.peer.peer_choke_me _ _
                        (λ _.
                          same-IsOwed t others x
                            (with_request x
                              (reset_pending_request_at x.peer.my_request (word_at 4 body)))
                            (index-reset_pending_request_at x.peer.my_request (word_at 4 body)) refl
                            o)
                        (λ _. close_link-IsOwed t others x o)))))

  index-choke_notice :
      (r : SingleRequest) (b : Bool) (now : ℕ) → (choke_notice r b now).index ≡ r.index
  unfolding choke_notice
  index-choke_notice r true now = refl
  index-choke_notice r false now = refl

  pub do_cmd_choke-IsOwed :
      (x : Link) (body : List ℕ) (now : ℕ)
      → IsOwed t others x
      → IsOwed t others (do_cmd_choke x body now)
  unfolding do_cmd_choke reset_pending_request
  do_cmd_choke-IsOwed x body now o =
      let r = choke_notice x.peer.my_request true now in
      let told = if x.peer.fast_extension then r else reset_pending_request r in
      let same : told.index ≡ x.peer.my_request.index =
        if_cases (λ (q : SingleRequest). q.index ≡ x.peer.my_request.index) x.peer.fast_extension r
          (reset_pending_request r) (λ _. index-choke_notice x.peer.my_request true now)
          (λ _. index-choke_notice x.peer.my_request true now) in
      if_cases (IsOwed t others) (not x.peer.shaked || not (length body == 0)) _ _ (λ _. o)
        (λ _.
          same-IsOwed t others x
            (record x { peer = record x.peer { peer_choke_me = true; my_request = told } }) same
            refl o)

  pub do_cmd_unchoke-IsOwed :
      (x : Link) (body : List ℕ) (now : ℕ)
      → IsOwed t others x
      → IsOwed t others (do_cmd_unchoke x body now)
  unfolding do_cmd_unchoke
  do_cmd_unchoke-IsOwed x body now o =
      let r = choke_notice x.peer.my_request false now in
      if_cases (IsOwed t others) (not x.peer.shaked || not (length body == 0)) _ _ (λ _. o)
        (λ _.
          same-IsOwed t others x
            (record x { peer = record x.peer { peer_choke_me = false; my_request = r } })
            (index-choke_notice x.peer.my_request false now) refl o)

  pub do_cmd_suggest_piece-IsOwed :
      (x : Link) (body : List ℕ)
      → IsOwed t others x
      → IsOwed t others (do_cmd_suggest_piece t x body)
  unfolding do_cmd_suggest_piece
  do_cmd_suggest_piece-IsOwed x body o =
      let P = IsOwed t others in
      let index = word_at 0 body in
      if_cases P (not x.peer.shaked) _ _ (λ _. o)
        (λ _.
          if_cases P (not x.peer.fast_extension) _ _ (λ _. close_link-IsOwed t others x o)
            (λ _.
              if_cases P (not (length body == 4)) _ _ (λ _. o)
                (λ _.
                  if_cases P (leb 2147483648 index || leb t.piece_count index) _ _
                    (λ _. close_link-IsOwed t others x o)
                    (λ _. if_cases P (ltb (length x.peer.suggest_list) 20) _ _ (λ _. o) (λ _. o)))))

  pub do_cmd_allow_fast-IsOwed :
      (x : Link) (body : List ℕ) → IsOwed t others x → IsOwed t others (do_cmd_allow_fast t x body)
  unfolding do_cmd_allow_fast
  do_cmd_allow_fast-IsOwed x body o =
      let P = IsOwed t others in
      let index = word_at 0 body in
      if_cases P (not x.peer.fast_extension) _ _ (λ _. close_link-IsOwed t others x o)
        (λ _.
          if_cases P (not (length body == 4)) _ _ (λ _. o)
            (λ _.
              if_cases P (leb 2147483648 index || leb t.piece_count index) _ _
                (λ _. close_link-IsOwed t others x o) (λ _. o)))
