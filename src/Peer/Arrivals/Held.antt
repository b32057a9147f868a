-- ===== src/Peer/Arrivals/Held.antt =====
-- The tasks of the storage that one peer of benliud_bt/src/BTPeer.cpp holds, from the task it is given to
-- the end of its connection.
use benliud.Common.{
  ℕ, zero, suc, ◌+◌, ◌<◌, ◌≡◌, ◌⊎◌, refl, sym, subst, ◌∙◌, arith, Bool, true, false, not, List, [],
  ◌∷◌, Option, none, some, length, ltb, ◌==◌, bit, inl, inr, if_cases, if◌then◌else◌, some_cases,
}
use benliud.SingleRequest.{
  SingleRequest, init, reset, empty, is_finish, get_piece_data, get_task, is_pending_request,
  mark_pending_request, set_virtual_data,
}
use benliud.SingleRequest.Alien.{Orphan, set_alien, clear_alien, get_orphans}
use benliud.SingleRequest.Requests.{index-get_task, index-mark_pending_request}
use benliud.Storage.{DownloadingMap, add_task, drop_task}
use benliud.Storage.Tasks.{
  IsMap, asked, asked-add_task, asked-drop_task, add_task-IsMap, drop_task-IsMap,
}
use benliud.Storage.Depot.{
  Torrent, Depot, check_out_orphan_data, check_in_orphan_data, abandon_task, get_share_task,
  hash_ok,
}
use benliud.Storage.Depot.Downloading.{check_out_tasks, check_in_tasks, get_share_task_tasks}
use benliud.Peer.Downloads.{
  Downloader, Link, pending_request_size, index_of, with_request, give_back, save_orphan,
  on_connection_close, close_link, cancel_my_request, send_tasks, ask_alone, ask_marked, ask_shared,
  do_my_request, take_in, use_orphans, check_out_orphans, begin_request, start_task,
}

-- The peer asks for the piece.
abbrev pub holds : Option ℕ → ℕ → Bool
holds none i = false
holds (some k) i = i == k

-- For each piece the storage counts the tasks of the others, and that of the peer.
pub record Owed (n : ℕ) (others : ℕ → ℕ) (index : Option ℕ) (m : DownloadingMap) : Type 0 where
  pub few : n < 4294967295
  pub ordered : IsMap m
  pub counted : (i : ℕ) → i < n → asked i m ≡ others i + bit (holds index i)

drop_task-Owed :
    (n : ℕ) (others : ℕ → ℕ) (k : ℕ) (m : DownloadingMap)
    → Owed n others (some k) m
    → Owed n others none (drop_task k m)
drop_task-Owed n others k m o = record {
  few = o.few;
  ordered = drop_task-IsMap k m o.ordered;
  counted = λ i h. omega (arith, asked-drop_task k i m o.ordered, o.counted i h);
}

pub add_task-Owed :
    (n : ℕ) (others : ℕ → ℕ) (k : ℕ) (m : DownloadingMap)
    → Owed n others none m
    → Owed n others (some k) (add_task k m)
add_task-Owed n others k m o = record {
  few = o.few;
  ordered = add_task-IsMap k m o.ordered;
  counted = λ i h. omega (arith, asked-add_task k i m o.ordered, o.counted i h);
}

index-take_in : (r : SingleRequest) (os : List Orphan) → (take_in r os).index ≡ r.index
unfolding take_in set_alien
index-take_in r [] = refl
index-take_in r (o ∷ os) = index-take_in (set_alien r o.source o.offset o.bytes) os

index-send_tasks :
    (fuel : ℕ) (r : SingleRequest) (now : ℕ) → (send_tasks fuel r now).0.index ≡ r.index
unfolding send_tasks
index-send_tasks zero r now = refl
index-send_tasks (suc fuel) r now =
    let P = λ (x : SingleRequest × List ℕ). x.0.index ≡ r.index in
    if_cases P (ltb r.pending_count pending_request_size) _ _
      (λ _.
        some_cases P (get_task r now).1 _ _ (λ _. refl)
          (λ o _. index-send_tasks fuel (get_task r now).0 now ∙ index-get_task r now))
      (λ _. refl)

index_of-none : (r : SingleRequest) → r.index ≡ none → index_of r ≡ 4294967295
unfolding index_of
index_of-none r e = rw (e, index_of) refl

index_of-some : (r : SingleRequest) (k : ℕ) → r.index ≡ some k → index_of r ≡ k
unfolding index_of
index_of-some r k e = rw (e, index_of) refl

index-ask_alone :
    (x : Link) (now : ℕ) → (ask_alone x now).peer.my_request.index ≡ x.peer.my_request.index
unfolding ask_alone
index-ask_alone x now = index-send_tasks pending_request_size x.peer.my_request now

ask_alone_tasks :
    (x : Link) (now : ℕ) → (ask_alone x now).depot.storage.downloading ≡ x.depot.storage.downloading
unfolding ask_alone
ask_alone_tasks x now = refl

module _ (t : Torrent) (others : ℕ → ℕ) where
  abbrev pub IsOwed : Link → Type 0
  IsOwed x = Owed t.piece_count others x.peer.my_request.index x.depot.storage.downloading

  -- Steps that keep the piece of the request and the tasks.
  pub same-IsOwed :
      (x y : Link)
      → y.peer.my_request.index ≡ x.peer.my_request.index
      → y.depot.storage.downloading ≡ x.depot.storage.downloading
      → IsOwed x
      → IsOwed y
  same-IsOwed x y e f o =
      subst (λ i. Owed t.piece_count others i y.depot.storage.downloading) (sym e)
        (subst (Owed t.piece_count others x.peer.my_request.index) (sym f) o)

  abandoned :
      (d : Depot) (r : SingleRequest) (index : Option ℕ)
      → r.index ≡ index
      → Owed t.piece_count others index d.storage.downloading
      → Owed t.piece_count others none (abandon_task t d (index_of r)).storage.downloading
  unfolding abandon_task
  abandoned d r none e o =
      if_cases (λ (x : Depot). Owed t.piece_count others none x.storage.downloading)
        (ltb (index_of r) t.piece_count) _ _
        (λ l. absurd (ground (arith, l, index_of-none r e, o.few))) (λ _. o)
  abandoned d r (some k) e o =
      if_cases (λ (x : Depot). Owed t.piece_count others none x.storage.downloading)
        (ltb (index_of r) t.piece_count) _ _
        (λ l.
          subst (λ j. Owed t.piece_count others none (drop_task j d.storage.downloading))
            (sym (index_of-some r k e))
            (drop_task-Owed t.piece_count others k d.storage.downloading o))
        (λ g. record {
          few = o.few;
          ordered = o.ordered;
          counted = λ i h. ground (arith, g, h, index_of-some r k e, o.counted i h);
        })

  pub give_back-IsOwed : (x : Link) → IsOwed x → IsOwed (give_back t x)
  unfolding give_back reset
  give_back-IsOwed x o = abandoned x.depot x.peer.my_request x.peer.my_request.index refl o

  save_orphan-IsOwed : (x : Link) → IsOwed x → IsOwed (save_orphan x)
  unfolding save_orphan
  save_orphan-IsOwed x o =
      let orphans = get_orphans x.peer.my_request [] in
      if_cases IsOwed x.peer.coorperate _ _ (λ _. o)
        (λ _.
          if_cases IsOwed (length orphans == 0) _ _ (λ _. o)
            (λ _.
              same-IsOwed x
                (record x {
                  depot = check_in_orphan_data x.depot (index_of x.peer.my_request) orphans;
                })
                refl (check_in_tasks x.depot (index_of x.peer.my_request) orphans) o))

  pub close_link-IsOwed : (x : Link) → IsOwed x → IsOwed (close_link t x)
  unfolding close_link on_connection_close
  close_link-IsOwed x o =
      if_cases IsOwed x.peer.linked _ _
        (λ _.
          if_cases IsOwed (empty x.peer.my_request) _ _ (λ _. o)
            (λ _. give_back-IsOwed (save_orphan x) (save_orphan-IsOwed x o)))
        (λ _. o)

  pub cancel_my_request-IsOwed : (x : Link) → IsOwed x → IsOwed (cancel_my_request t x)
  unfolding cancel_my_request
  cancel_my_request-IsOwed x o =
      if_cases IsOwed (empty x.peer.my_request) _ _ (λ _. o)
        (λ _. give_back-IsOwed (record x { sent = _ }) o)

  ask_alone-IsOwed : (x : Link) (now : ℕ) → IsOwed x → IsOwed (ask_alone x now)
  ask_alone-IsOwed x now o =
      same-IsOwed x (ask_alone x now) (index-ask_alone x now) (ask_alone_tasks x now) o

  ask_shared-IsOwed : (fuel : ℕ) (x : Link) (now : ℕ) → IsOwed x → IsOwed (ask_shared fuel t x now)
  unfolding ask_shared ask_marked
  ask_shared-IsOwed zero x now o = o
  ask_shared-IsOwed (suc fuel) x now o =
      let r = x.peer.my_request in
      let share = get_share_task t x.depot (index_of r) in
      let y = record x { depot = share.0 } in
      let w : IsOwed y = same-IsOwed x y refl (get_share_task_tasks t x.depot (index_of r)) o in
      if_cases IsOwed (not (ltb r.pending_count pending_request_size)) _ _ (λ _. o)
        (λ _.
          some_cases IsOwed share.1 _ _
            (λ _.
              if_cases IsOwed (r.pending_count == 0) (close_link t y) y (λ _. close_link-IsOwed y w)
                (λ _. w))
            (λ a _.
              if_cases IsOwed (is_pending_request r a.0) (ask_alone y now)
                (if (mark_pending_request r a.0 now).1
                  then ask_shared fuel t (ask_marked y a now) now
                  else y)
                (λ _. ask_alone-IsOwed y now w)
                (λ _.
                  if_cases IsOwed (mark_pending_request r a.0 now).1
                    (ask_shared fuel t (ask_marked y a now) now) y
                    (λ _. ask_shared-IsOwed fuel (ask_marked y a now) now (
                      same-IsOwed y (ask_marked y a now) (index-mark_pending_request r a.0 now) refl
                        w))
                    (λ _. w))))

  pub do_my_request-IsOwed : (x : Link) (now : ℕ) → IsOwed x → IsOwed (do_my_request t x now)
  unfolding do_my_request
  do_my_request-IsOwed x now o =
      if_cases IsOwed x.peer.coorperate _ _ (λ _. ask_shared-IsOwed pending_request_size x now o)
        (λ _. ask_alone-IsOwed x now o)

  -- Orphans that do not complete the piece leave the request for it.
  check_out_orphans-IsOwed :
      (x : Link) → (check_out_orphans t x).1 ≡ false → IsOwed x → IsOwed (check_out_orphans t x).0
  unfolding check_out_orphans use_orphans with_request clear_alien
  check_out_orphans-IsOwed x e o =
      let out = check_out_orphan_data x.depot (index_of x.peer.my_request) in
      let r = take_in x.peer.my_request out.1 in
      let P = λ (y : Link × Bool). y.1 ≡ false → IsOwed y.0 in
      let w : Owed t.piece_count others r.index out.0.storage.downloading =
        same-IsOwed x (with_request (record x { depot = out.0 }) r)
          (index-take_in x.peer.my_request out.1)
          (check_out_tasks x.depot (index_of x.peer.my_request)) o in
      if_cases P (not (is_finish r)) _ _ (λ _ _. w)
        (λ _.
          if_cases P (hash_ok t (index_of r) (get_piece_data r)) _ _ (λ _ f. absurd (cc))
            (λ _ _. w))
        e

  begin_request_index :
      (p : Downloader) (index : ℕ) (coop fast : Bool)
      → (begin_request t p index coop fast).my_request.index ≡ some index
  unfolding begin_request init set_virtual_data
  begin_request_index p index coop fast =
      some_cases (λ (r : SingleRequest). r.index ≡ some index) (t.virtual_range index) _ _
        (λ _. refl) (λ v _. refl)

  pub start_task-IsOwed :
      (x : Link) (index : ℕ) (coop fast : Bool) (now : ℕ)
      → (coop ≡ true)
        ⊎ ((check_out_orphans t (record x { peer = begin_request t x.peer index coop fast })).1
            ≡ false)
      → Owed t.piece_count others (some index) x.depot.storage.downloading
      → IsOwed (start_task t x index coop fast now)
  unfolding start_task
  start_task-IsOwed x index coop fast now c o =
      let y = record x { peer = begin_request t x.peer index coop fast } in
      let out = check_out_orphans t y in
      let w : IsOwed y =
        subst (λ i. Owed t.piece_count others i x.depot.storage.downloading)
          (sym (begin_request_index x.peer index coop fast)) o in
      if_cases IsOwed coop _ _ (λ _. do_my_request-IsOwed y now w)
        (λ e.
          let left : out.1 ≡ false = elim c [ inl a ↦ absurd (cc) | inr b ↦ b ] in
          if_cases IsOwed out.1 _ _ (λ d. absurd (cc))
            (λ _. do_my_request-IsOwed out.0 now (check_out_orphans-IsOwed y left w)))
