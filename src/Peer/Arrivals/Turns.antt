-- ===== src/Peer/Arrivals/Turns.antt =====
-- The pieces of the storage while peers of benliud_bt/src/BTPeer.cpp download, whichever peers they are
-- and in whatever order they are served.
use benliud.Common.{ℕ, not, ◌||◌, List, [], ◌∷◌, length, drop, ltb, leb, ◌==◌, if_cases}
use benliud.Piece.{BtPiece, is_set}
use benliud.SingleRequest.{set_data, is_finish, get_piece_data}
use benliud.SingleRequest.Alien.{have_alien}
use benliud.Storage.{Chance}
use benliud.Storage.Depot.{Torrent, Depot, write_piece, check_in_orphan, hash_ok, submit_share_data}
use benliud.Storage.Depot.Verified.{
  IsVerified, write_piece-IsVerified, check_in-IsVerified, submit_share_data-IsVerified,
}
use benliud.Peer.{word_at}
use benliud.Peer.Downloads.{
  Downloader, Link, index_of, with_request, give_back, close_link, cancel_my_request,
  check_my_request,
}
use benliud.Peer.Arrivals.{
  finish_piece, got_block, piece_arrived, do_cmd_piece, do_cmd_choke, do_cmd_unchoke,
  do_cmd_reject_request, do_cmd_suggest_piece, do_cmd_allow_fast,
}
use benliud.Peer.Arrivals.Verified.{
  Ok, close_link-Ok, give_back-Ok, cancel_my_request-Ok, check_my_request-Ok, hash_right,
}

module _ (t : Torrent) (start : BtPiece) where
  finish_piece-Ok : (x : Link) (index : ℕ) → Ok t start x → Ok t start (finish_piece t x index)
  unfolding finish_piece with_request
  finish_piece-Ok x index v =
      let bytes = get_piece_data x.peer.my_request in
      if_cases (Ok t start) (not (is_finish x.peer.my_request)) _ _ (λ _. v)
        (λ _.
          if_cases (Ok t start) (hash_ok t index bytes) _ _
            (λ e.
              cancel_my_request-Ok t start (record x { depot = write_piece x.depot index bytes })
                (write_piece-IsVerified t start x.depot index bytes
                  (hash_right t start index bytes e) v))
            (λ _.
              if_cases (Ok t start) (have_alien x.peer.my_request x.peer.peer_iip) _ _ (λ _. v)
                (λ _. close_link-Ok t start (give_back t x) (give_back-Ok t start x v))))

  got_block-Ok :
      (x : Link) (index offset : ℕ) (block : List ℕ) (now : ℕ)
      → Ok t start x
      → Ok t start (got_block t x index offset block now)
  unfolding got_block with_request
  got_block-Ok x index offset block now v =
      let stored = set_data x.peer.my_request offset block now in
      let y = with_request x stored.0 in
      let more = submit_share_data t x.depot x.peer.peer_iip index offset block in
      let z = record y { depot = more.0 } in
      let w : Ok t start z =
        submit_share_data-IsVerified t start x.depot x.peer.peer_iip index offset block v in
      if_cases (Ok t start) (not stored.1) _ _ (λ _. close_link-Ok t start x v)
        (λ _.
          if_cases (Ok t start) x.peer.coorperate _ _
            (λ _.
              if_cases (Ok t start) more.1 _ _ (λ _. finish_piece-Ok z index w)
                (λ _. cancel_my_request-Ok t start z w))
            (λ _. finish_piece-Ok y index v))

  do_cmd_piece-Ok :
      (x : Link) (body : List ℕ) (now : ℕ) → Ok t start x → Ok t start (do_cmd_piece t x body now)
  unfolding do_cmd_piece piece_arrived check_in_orphan
  do_cmd_piece-Ok x body now v =
      let index = word_at 0 body in
      if_cases (Ok t start) (not x.peer.shaked) _ _ (λ _. v)
        (λ _.
          if_cases (Ok t start) (leb (length body) 8) _ _ (λ _. close_link-Ok t start x v)
            (λ _.
              if_cases (Ok t start) (leb 2147483648 index || leb t.piece_count index) _ _
                (λ _. close_link-Ok t start x v)
                (λ _.
                  if_cases (Ok t start) (is_set x.depot.storage.finished index) _ _ (λ _. v)
                    (λ _.
                      if_cases (Ok t start) (not (index == index_of x.peer.my_request)) _ _
                        (λ _. check_in-IsVerified t start x.depot index _ v)
                        (λ _. got_block-Ok x index (word_at 4 body) (drop 8 body) now v)))))

  do_cmd_reject_request-Ok :
      (x : Link) (body : List ℕ) → Ok t start x → Ok t start (do_cmd_reject_request t x body)
  unfolding do_cmd_reject_request with_request
  do_cmd_reject_request-Ok x body v =
      if_cases (Ok t start) (not x.peer.shaked) _ _ (λ _. v)
        (λ _.
          if_cases (Ok t start) (not x.peer.fast_extension) _ _ (λ _. close_link-Ok t start x v)
            (λ _.
              if_cases (Ok t start) (not (length body == 12)) _ _ (λ _. v)
                (λ _.
                  if_cases (Ok t start) (not (index_of x.peer.my_request == word_at 0 body)) _ _
                    (λ _. v)
                    (λ _.
                      if_cases (Ok t start) x.peer.peer_choke_me _ _ (λ _. v)
                        (λ _. close_link-Ok t start x v)))))

  do_cmd_suggest_piece-Ok :
      (x : Link) (body : List ℕ) → Ok t start x → Ok t start (do_cmd_suggest_piece t x body)
  unfolding do_cmd_suggest_piece
  do_cmd_suggest_piece-Ok x body v =
      let P = Ok t start in
      let index = word_at 0 body in
      if_cases P (not x.peer.shaked) _ _ (λ _. v)
        (λ _.
          if_cases P (not x.peer.fast_extension) _ _ (λ _. close_link-Ok t start x v)
            (λ _.
              if_cases P (not (length body == 4)) _ _ (λ _. v)
                (λ _.
                  if_cases P (leb 2147483648 index || leb t.piece_count index) _ _
                    (λ _. close_link-Ok t start x v)
                    (λ _. if_cases P (ltb (length x.peer.suggest_list) 20) _ _ (λ _. v) (λ _. v)))))

  do_cmd_allow_fast-Ok :
      (x : Link) (body : List ℕ) → Ok t start x → Ok t start (do_cmd_allow_fast t x body)
  unfolding do_cmd_allow_fast
  do_cmd_allow_fast-Ok x body v =
      let P = Ok t start in
      let index = word_at 0 body in
      if_cases P (not x.peer.fast_extension) _ _ (λ _. close_link-Ok t start x v)
        (λ _.
          if_cases P (not (length body == 4)) _ _ (λ _. v)
            (λ _.
              if_cases P (leb 2147483648 index || leb t.piece_count index) _ _
                (λ _. close_link-Ok t start x v) (λ _. v)))

  chokes-Ok :
      (x : Link) (body : List ℕ) (now : ℕ)
      → Ok t start x
      → Ok t start (do_cmd_choke x body now) × Ok t start (do_cmd_unchoke x body now)
  unfolding do_cmd_choke do_cmd_unchoke
  chokes-Ok x body now v =
      let told = not x.peer.shaked || not (length body == 0) in
      (
        if_cases (Ok t start) told _ _ (λ _. v) (λ _. v),
        if_cases (Ok t start) told _ _ (λ _. v) (λ _. v),
      )

-- What a peer's connection does to the storage, at a tick.
pub data Turn : Type 0 where
  asks : (chance : Chance) (now : ℕ) → Turn
  gets_piece : (body : List ℕ) (now : ℕ) → Turn
  is_choked : (body : List ℕ) (now : ℕ) → Turn
  is_unchoked : (body : List ℕ) (now : ℕ) → Turn
  is_rejected : (body : List ℕ) → Turn
  is_suggested : (body : List ℕ) → Turn
  is_allowed : (body : List ℕ) → Turn
  is_cancelled : Turn
  closes : Turn

abbrev turn : Torrent → Link → Turn → Link
turn t x (asks chance now) = check_my_request t x chance now
turn t x (gets_piece body now) = do_cmd_piece t x body now
turn t x (is_choked body now) = do_cmd_choke x body now
turn t x (is_unchoked body now) = do_cmd_unchoke x body now
turn t x (is_suggested body) = do_cmd_suggest_piece t x body
turn t x (is_allowed body) = do_cmd_allow_fast t x body
turn t x (is_rejected body) = do_cmd_reject_request t x body
turn t x is_cancelled = cancel_my_request t x
turn t x closes = close_link t x

turn-Ok :
    (t : Torrent) (start : BtPiece) (x : Link) (k : Turn)
    → IsVerified t start x.depot
    → IsVerified t start (turn t x k).depot
turn-Ok t start x (asks chance now) v = check_my_request-Ok t start x chance now v
turn-Ok t start x (gets_piece body now) v = do_cmd_piece-Ok t start x body now v
turn-Ok t start x (is_choked body now) v = (chokes-Ok t start x body now v).0
turn-Ok t start x (is_unchoked body now) v = (chokes-Ok t start x body now v).1
turn-Ok t start x (is_suggested body) v = do_cmd_suggest_piece-Ok t start x body v
turn-Ok t start x (is_allowed body) v = do_cmd_allow_fast-Ok t start x body v
turn-Ok t start x (is_rejected body) v = do_cmd_reject_request-Ok t start x body v
turn-Ok t start x is_cancelled v = cancel_my_request-Ok t start x v
turn-Ok t start x closes v = close_link-Ok t start x v

-- Turns of peers, each in a state of its own, one after the other.
unfoldable pub serve : Torrent → Depot → List (Downloader × Turn) → Depot
serve t d [] = d
serve t d ((p, k) ∷ ks) = serve t (turn t (record { peer = p; depot = d; sent = [] }) k).depot ks

-- If a piece that is finished was so at the start, or the write cache has bytes for it with the hash
-- that the torrent tells, then it stays so, whatever peers have their turns, in whatever states and in
-- whatever order.
pub serve-IsVerified :
    (t : Torrent) (start : BtPiece) (d : Depot) (turns : List (Downloader × Turn))
    → IsVerified t start d
    → IsVerified t start (serve t d turns)
unfolding serve
serve-IsVerified t start d [] v = v
serve-IsVerified t start d ((p, k) ∷ ks) v =
    serve-IsVerified t start (turn t (record { peer = p; depot = d; sent = [] }) k).depot ks
      (turn-Ok t start (record { peer = p; depot = d; sent = [] }) k v)
