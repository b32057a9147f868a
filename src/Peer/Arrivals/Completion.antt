-- ===== src/Peer/Arrivals/Completion.antt =====
-- The end of a piece in benliud_bt/src/BTPeer.cpp: the last block of a request, and a request that
-- orphans complete.
use benliud.Common.{
  ℕ, ◌<◌, ◌≡◌, refl, sym, ap, subst, ◌∙◌, arith, true, false, not, List, [], ◌∷◌, some, length, All,
  ltb, ◌==◌, if_cases, if_true, ==_refl,
}
use benliud.Piece.{BtPiece, is_set}
use benliud.Piece
use benliud.Piece.Laws.{is_set-set}
use benliud.Piece.Laws
use benliud.PieceSum.{get_value, nonzero}
use benliud.SingleRequest.{SingleRequest, init, reset, empty, set_data, is_finish, get_piece_data}
use benliud.SingleRequest.Alien.{have_alien}
use benliud.SingleRequest.Calls.{Call, run}
use benliud.SingleRequest.Session.{IsHonest, get_piece_data-run}
use benliud.SingleRequest.Requests.{IsForeign, set_data-IsForeign, have_alien_foreign}
use benliud.ShareRequest.{equal}
use benliud.Storage.Depot.{
  Torrent, Depot, find_piece, clean_orphan, with_orphans, abandon_task, cache_piece, write_piece,
  hash_ok,
}
use benliud.Storage.Depot.Verified.{find_piece-put_piece}
use benliud.Peer.Downloads.{Link, index_of, with_request, give_back, close_link, cancel_my_request}
use benliud.Peer.Arrivals.{finish_piece, got_block}

equal_refl : (xs : List ℕ) → equal xs xs ≡ true
unfolding equal
equal_refl [] = refl
equal_refl (x ∷ xs) = rw (==_refl x, equal) (equal_refl xs)

-- The piece is finished, and waits in the cache with its bytes.
abbrev pub IsStored : ℕ → List ℕ → Depot → Type 0
IsStored index piece d =
    (find_piece index d.write_cache ≡ some piece) × (is_set d.storage.finished index ≡ true)

below : (p : BtPiece) (i : ℕ) → is_set p i ≡ false → i < p.size
unfolding is_set
below p i h = ground arith

abandon_task-IsStored :
    (t : Torrent) (d : Depot) (k index : ℕ) (piece : List ℕ)
    → IsStored index piece d
    → IsStored index piece (abandon_task t d k)
unfolding abandon_task
abandon_task-IsStored t d k index piece s =
    if_cases (IsStored index piece) (ltb k t.piece_count) _ _ (λ _. s) (λ _. s)

write_piece-IsStored :
    (d : Depot) (index : ℕ) (piece : List ℕ)
    → Piece.Laws.IsValid d.storage.finished
    → is_set d.storage.finished index ≡ false
    → nonzero (get_value d.storage.priority index) ≡ true
    → IsStored index piece (write_piece d index piece)
unfolding write_piece clean_orphan with_orphans cache_piece
write_piece-IsStored d index piece v n w =
    if_cases (IsStored index piece) (is_set d.storage.finished index) _ _ (λ e. absurd (cc))
      (λ _.
        if_cases (IsStored index piece) (not (nonzero (get_value d.storage.priority index))) _ _
          (λ e. absurd (ground (arith, e, w)))
          (λ _. (
            find_piece-put_piece index index piece d.write_cache
                ∙ if_true (index == index) _ _ (==_refl index),
            is_set-set d.storage.finished index index true v (below d.storage.finished index n)
                ∙ if_true (index == index) _ _ (==_refl index),
          )))

cancel_my_request-IsStored :
    (t : Torrent) (x : Link) (index : ℕ) (piece : List ℕ)
    → IsStored index piece x.depot
    → IsStored index piece (cancel_my_request t x).depot
      × (empty (cancel_my_request t x).peer.my_request ≡ true)
unfolding cancel_my_request give_back reset empty
cancel_my_request-IsStored t x index piece s =
    if_cases (λ (y : Link). IsStored index piece y.depot × (empty y.peer.my_request ≡ true))
      (empty x.peer.my_request) _ _ (λ e. (s, e))
      (λ _. (abandon_task-IsStored t x.depot (index_of x.peer.my_request) index piece s, refl))

-- When no block is missing any more, and every call since the request was made brought parts of a piece
-- with the right hash, or made up its zeros, `Init` and `Reset` not among them, the piece is finished, stands in the write cache, and the peer is free for a new
-- request. The storage wants the piece, does not have it, and its bitfield has as many bytes as it needs,
-- each below 256.
pub finish_piece-IsStored :
    (t : Torrent) (x : Link) (index : ℕ) (piece : List ℕ) (r : SingleRequest) (cs : List Call)
    → x.peer.my_request ≡ run (init (reset r) (some index) (length piece)) cs
    → All (IsHonest piece) cs
    → is_finish x.peer.my_request ≡ true
    → t.sha1_string piece ≡ t.piece_hash index
    → Piece.Laws.IsValid x.depot.storage.finished
    → is_set x.depot.storage.finished index ≡ false
    → nonzero (get_value x.depot.storage.priority index) ≡ true
    → IsStored index piece (finish_piece t x index).depot
      × (empty (finish_piece t x index).peer.my_request ≡ true)
unfolding finish_piece hash_ok
finish_piece-IsStored t x index piece r cs e h f g v n w =
    let same : get_piece_data x.peer.my_request ≡ piece =
      ap get_piece_data e ∙ get_piece_data-run piece r index cs h (ap is_finish (sym e) ∙ f) in
    let good : equal (t.sha1_string (get_piece_data x.peer.my_request)) (t.piece_hash index)
        ≡ true =
      ap (λ b. equal (t.sha1_string b) (t.piece_hash index)) same
      ∙ ap (λ a. equal a (t.piece_hash index)) g
      ∙ equal_refl (t.piece_hash index) in
    let P = λ (y : Link). IsStored index piece y.depot × (empty y.peer.my_request ≡ true) in
    if_cases P (not (is_finish x.peer.my_request)) _ _ (λ a. absurd (ground (arith, a, f)))
      (λ _.
        if_cases P (hash_ok t index (get_piece_data x.peer.my_request)) _ _
          (λ _.
            cancel_my_request-IsStored t
              (record x { depot = write_piece x.depot index (get_piece_data x.peer.my_request) })
              index piece
              (subst (λ b. IsStored index piece (write_piece x.depot index b)) (sym same)
                (write_piece-IsStored x.depot index piece v n w)))
          (λ a. absurd (ground (arith, a, good))))

-- A block that completes a piece with a wrong hash closes the connection of the peer that sent it, as
-- soon as no block of the request has this peer for its source: also when the wrong bytes are orphans
-- of other peers, and the block is right. The piece is asked of this peer only.
pub got_block-closes :
    (t : Torrent) (x : Link) (index offset : ℕ) (block : List ℕ) (now : ℕ)
    → x.peer.coorperate ≡ false
    → (set_data x.peer.my_request offset block now).1 ≡ true
    → is_finish (set_data x.peer.my_request offset block now).0 ≡ true
    → hash_ok t index (get_piece_data (set_data x.peer.my_request offset block now).0) ≡ false
    → IsForeign x.peer.peer_iip x.peer.my_request
    → (got_block t x index offset block now).peer.linked ≡ false
unfolding got_block finish_piece with_request close_link
got_block-closes t x index offset block now c k f g o =
    let r = (set_data x.peer.my_request offset block now).0 in
    let P = λ (y : Link). y.peer.linked ≡ false in
    if_cases P (not (set_data x.peer.my_request offset block now).1) _ _ (λ _. refl)
      (λ _.
        if_cases P x.peer.coorperate _ _ (λ e. absurd (cc))
          (λ _.
            if_cases P (not (is_finish r)) _ _ (λ e. absurd (ground (arith, e, f)))
              (λ _.
                if_cases P (hash_ok t index (get_piece_data r)) _ _ (λ e. absurd (cc))
                  (λ _.
                    if_cases P (have_alien r x.peer.peer_iip) _ _
                      (λ e. absurd (
                        ground (
                          arith,
                          e,
                          have_alien_foreign x.peer.peer_iip r (
                              set_data-IsForeign x.peer.peer_iip x.peer.my_request offset block now
                                o),
                        )))
                      (λ _. refl)))))
