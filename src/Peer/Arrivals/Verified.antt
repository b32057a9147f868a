-- ===== src/Peer/Arrivals/Verified.antt =====
-- The pieces of the storage while one peer of benliud_bt/src/BTPeer.cpp asks for blocks, and when it
-- closes.
use benliud.Common.{
  ℕ, zero, suc, ◌≡◌, refl, sym, subst, Bool, true, false, not, List, [], ◌∷◌, Option, length, ltb,
  ◌==◌, if_cases, if◌then◌else◌, some_cases,
}
use benliud.Piece.{BtPiece, is_set}
use benliud.SingleRequest.{
  empty, is_finish, get_piece_data, is_pending_request, mark_pending_request,
}
use benliud.SingleRequest.Alien.{get_orphans}
use benliud.Storage.{
  Storage, Task, Chance, task, get_piece_task, get_appointed_task, open_task, take_task, max_prio,
  open_value, busy_piece, count_of, may_share,
}
use benliud.PieceSum.{get_value, nonzero}
use benliud.Storage.Depot.{Torrent, check_out_orphan_data, hash_ok, get_share_task}
use benliud.Storage.Depot.Verified.{
  IsVerified, AllKept, equal_sound, write_piece-IsVerified, check_out-IsVerified,
  check_in-IsVerified, abandon_task-IsVerified, get_share_task-IsVerified,
}
use benliud.Peer.Downloads.{
  Link, pending_request_size, index_of, with_request, give_back, save_orphan, on_connection_close,
  close_link, cancel_my_request, ask_alone, ask_marked, ask_shared, do_my_request, take_in,
  use_orphans, check_out_orphans, begin_request, start_task, start_found, with_storage, appointed,
  lose_interest, ask_storage, ask_suggested, ask_allowed, check_my_request,
}

module _ (t : Torrent) (start : BtPiece) where
  abbrev pub Ok : Link → Type 0
  Ok x = IsVerified t start x.depot

  pub give_back-Ok : (x : Link) → Ok x → Ok (give_back t x)
  unfolding give_back
  give_back-Ok x v = abandon_task-IsVerified t start x.depot (index_of x.peer.my_request) v

  pub hash_right :
      (index : ℕ) (bytes : List ℕ)
      → hash_ok t index bytes ≡ true
      → t.sha1_string bytes ≡ t.piece_hash index
  unfolding hash_ok
  hash_right index bytes e = equal_sound (t.sha1_string bytes) (t.piece_hash index) e

  save_orphan-Ok : (x : Link) → Ok x → Ok (save_orphan x)
  unfolding save_orphan
  save_orphan-Ok x v =
      let orphans = get_orphans x.peer.my_request [] in
      if_cases Ok x.peer.coorperate _ _ (λ _. v)
        (λ _.
          if_cases Ok (length orphans == 0) _ _ (λ _. v)
            (λ _. check_in-IsVerified t start x.depot (index_of x.peer.my_request) orphans v))

  pub close_link-Ok : (x : Link) → Ok x → Ok (close_link t x)
  unfolding close_link on_connection_close
  close_link-Ok x v =
      if_cases Ok x.peer.linked _ _
        (λ _.
          if_cases Ok (empty x.peer.my_request) _ _ (λ _. v)
            (λ _. give_back-Ok (save_orphan x) (save_orphan-Ok x v)))
        (λ _. v)

  pub cancel_my_request-Ok : (x : Link) → Ok x → Ok (cancel_my_request t x)
  unfolding cancel_my_request
  cancel_my_request-Ok x v =
      if_cases Ok (empty x.peer.my_request) _ _ (λ _. v)
        (λ _. give_back-Ok (record x { sent = _ }) v)

  ask_alone-Ok : (x : Link) (now : ℕ) → Ok x → Ok (ask_alone x now)
  unfolding ask_alone
  ask_alone-Ok x now v = v

  ask_shared-Ok : (fuel : ℕ) (x : Link) (now : ℕ) → Ok x → Ok (ask_shared fuel t x now)
  unfolding ask_shared ask_marked
  ask_shared-Ok zero x now v = v
  ask_shared-Ok (suc fuel) x now v =
      let r = x.peer.my_request in
      let share = get_share_task t x.depot (index_of r) in
      let y = record x { depot = share.0 } in
      let w : Ok y = get_share_task-IsVerified t start x.depot (index_of r) v in
      if_cases Ok (not (ltb r.pending_count pending_request_size)) _ _ (λ _. v)
        (λ _.
          some_cases Ok share.1 _ _
            (λ _.
              if_cases Ok (r.pending_count == 0) (close_link t y) y (λ _. close_link-Ok y w)
                (λ _. w))
            (λ o _.
              if_cases Ok (is_pending_request r o.0) (ask_alone y now)
                (if (mark_pending_request r o.0 now).1
                  then ask_shared fuel t (ask_marked y o now) now
                  else y)
                (λ _. ask_alone-Ok y now w)
                (λ _.
                  if_cases Ok (mark_pending_request r o.0 now).1
                    (ask_shared fuel t (ask_marked y o now) now) y
                    (λ _. ask_shared-Ok fuel (ask_marked y o now) now w) (λ _. w))))

  pub do_my_request-Ok : (x : Link) (now : ℕ) → Ok x → Ok (do_my_request t x now)
  unfolding do_my_request
  do_my_request-Ok x now v =
      if_cases Ok x.peer.coorperate _ _ (λ _. ask_shared-Ok pending_request_size x now v)
        (λ _. ask_alone-Ok x now v)

  check_out_orphans-Ok : (x : Link) → Ok x → Ok (check_out_orphans t x).0
  unfolding check_out_orphans use_orphans with_request
  check_out_orphans-Ok x v =
      let P = λ (y : Link × Bool). Ok y.0 in
      let out = check_out_orphan_data x.depot (index_of x.peer.my_request) in
      let w = check_out-IsVerified t start x.depot (index_of x.peer.my_request) v in
      let r = take_in x.peer.my_request out.1 in
      if_cases P (not (is_finish r)) _ _ (λ _. w)
        (λ _.
          if_cases P (hash_ok t (index_of r) (get_piece_data r)) _ _
            (λ e.
              write_piece-IsVerified t start out.0 (index_of r) (get_piece_data r)
                (hash_right (index_of r) (get_piece_data r) e) w)
            (λ _. w))

  pub start_found-Ok :
      (x : Link) (k : Task) (fast : Bool) (now : ℕ) → Ok x → Ok (start_found t x k fast now)
  unfolding start_found start_task
  start_found-Ok x (task index coop) fast now v =
      let y = record x { peer = begin_request t x.peer index coop fast } in
      let out = check_out_orphans t y in
      let w : Ok out.0 = check_out_orphans-Ok y v in
      if_cases Ok coop _ _ (λ _. do_my_request-Ok y now v)
        (λ _. if_cases Ok out.1 _ _ (λ _. w) (λ _. do_my_request-Ok out.0 now w))

  -- Choosing a piece finishes none.
  abbrev Keeps : Storage → Storage × Option Task → Type 0
  Keeps s found = found.0.finished ≡ s.finished

  get_piece_task-Keeps :
      (s : Storage) (bits : BtPiece) (c : Chance) → Keeps s (get_piece_task s bits c)
  unfolding get_piece_task open_task take_task
  get_piece_task-Keeps s bits c =
      if_cases (Keeps s) (ltb 0 (max_prio s.priority.size (open_value s bits))) _ _ (λ _. refl)
        (λ _. some_cases (Keeps s) (busy_piece s bits) _ _ (λ _. refl) (λ p _. refl))

  get_appointed_task-Keeps : (s : Storage) (index : ℕ) → Keeps s (get_appointed_task s index)
  unfolding get_appointed_task take_task
  get_appointed_task-Keeps s index =
      if_cases (Keeps s) (is_set s.finished index) _ _ (λ _. refl)
        (λ _.
          if_cases (Keeps s) (not (nonzero (get_value s.priority index))) _ _ (λ _. refl)
            (λ _.
              some_cases (Keeps s) (count_of index s.downloading) _ _ (λ _. refl)
                (λ n _.
                  if_cases (Keeps s) (may_share (get_value s.priority index) n) _ _ (λ _. refl)
                    (λ _. refl))))

  appointed-finished : (s : Storage) (is : List ℕ) → (appointed s is).1.finished ≡ s.finished
  unfolding appointed
  appointed-finished s [] = refl
  appointed-finished s (i ∷ is) =
      some_cases (λ (a : List ℕ × Storage × Option Task). a.1.finished ≡ s.finished)
        (get_appointed_task s i).1 _ _ (λ _. appointed-finished s is)
        (λ k _. get_appointed_task-Keeps s i)

  with_storage-Ok :
      (x : Link) (s : Storage)
      → s.finished ≡ x.depot.storage.finished
      → Ok x
      → Ok (with_storage x s)
  unfolding with_storage
  with_storage-Ok x s e v = subst (λ f. AllKept t start f x.depot.write_cache) (sym e) v

  ask_storage-Ok : (x : Link) (c : Chance) (now : ℕ) → Ok x → Ok (ask_storage t x c now)
  unfolding ask_storage lose_interest
  ask_storage-Ok x c now v =
      let choice = get_piece_task x.depot.storage x.peer.peer_bit_set c in
      some_cases Ok choice.1 _ _ (λ _. if_cases Ok x.peer.me_interest_peer _ _ (λ _. v) (λ _. v))
        (λ k _. start_found-Ok (with_storage x choice.0) k false now (
          with_storage-Ok x choice.0 (get_piece_task-Keeps x.depot.storage x.peer.peer_bit_set c)
            v))

  pub check_my_request-Ok :
      (x : Link) (c : Chance) (now : ℕ) → Ok x → Ok (check_my_request t x c now)
  unfolding check_my_request ask_suggested ask_allowed
  check_my_request-Ok x c now v =
      let found = appointed x.depot.storage x.peer.suggest_list in
      let y = record x { peer = record x.peer { suggest_list = found.0 } } in
      let w : Ok (with_storage y found.1) =
        with_storage-Ok y found.1 (appointed-finished x.depot.storage x.peer.suggest_list) v in
      let allowed = appointed x.depot.storage x.peer.allow_fast_list in
      let z = record x { peer = record x.peer { allow_fast_list = allowed.0 } } in
      let u : Ok (with_storage z allowed.1) =
        with_storage-Ok z allowed.1 (appointed-finished x.depot.storage x.peer.allow_fast_list) v in
      if_cases Ok (not x.peer.shaked) _ _ (λ _. v)
        (λ _.
          if_cases Ok (not x.peer.me_interest_peer) _ _ (λ _. v)
            (λ _.
              if_cases Ok (not x.peer.peer_choke_me) _ _
                (λ _.
                  if_cases Ok (not (empty x.peer.my_request)) _ _ (λ _. do_my_request-Ok x now v)
                    (λ _.
                      if_cases Ok x.peer.fast_extension _ _
                        (λ _.
                          some_cases Ok found.2 _ _
                            (λ _. ask_storage-Ok (with_storage y found.1) c now w)
                            (λ k _. start_found-Ok (with_storage y found.1) k false now w))
                        (λ _. ask_storage-Ok x c now v)))
                (λ _.
                  if_cases Ok (not x.peer.fast_extension) _ _ (λ _. v)
                    (λ _.
                      if_cases Ok (empty x.peer.my_request) _ _
                        (λ _.
                          some_cases Ok allowed.2 _ _ (λ _. u)
                            (λ k _. start_found-Ok (with_storage z allowed.1) k true now u))
                        (λ _.
                          if_cases Ok x.peer.my_request.allow_fast _ _
                            (λ _. do_my_request-Ok x now v) (λ _. v))))))
