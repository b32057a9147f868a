-- ===== src/Peer/Announcing.antt =====
-- The messages of benliud_bt/src/BTPeer.cpp that tell of pieces, in download mode, one after the other
-- up to the end of the connection; and a first bitfield in upload mode.
use benliud.Common.{
  ℕ, ◌+◌, ◌/◌, ◌%◌, ◌<◌, ◌≡◌, refl, sym, ap, subst, ◌∙◌, arith, Bool, true, false, not, ◌&&◌, ◌||◌,
  List, [], ◌∷◌, All, length, leb, ◌==◌, if◌then◌else◌, Bool-cases, inl, inr,
}
use benliud.Common.Int.{pos}
use benliud.Piece.{BtPiece, is_set, set_all, init_stream}
use benliud.Piece
use benliud.Piece.Laws.{
  init-IsValid, init_stream-IsValid, set-IsValid, size-set, size-init, size-init_stream,
  is_set-init,
}
use benliud.Piece.Fill.{set_all_lem}
use benliud.PieceSum.{BtPieceSum, drop_one, sub, get_value}
use benliud.PieceSum.Laws.{IsValid, get_value-sub}
use benliud.PieceSum.Notices.{piece_change_notice}
use benliud.Peer.{word_at}
use benliud.Peer.Pieces.{
  PiecePeer, Session, Counted, take_off, close_peer, got_bits, new_bitfield, do_cmd_bitfield,
  new_have, do_cmd_have, do_cmd_have_all, do_cmd_have_none,
}
use benliud.Peer.Tally.{
  Counts, Counts-same, Counts-new_piece, Tally, take_off-Counts, close_peer-Tally, got_bits-Tally,
}

module _ (s : Session) (others : ℕ → ℕ) where
  either :
      (c : Bool) (x y : Counted)
      → (c ≡ true → Tally s.piece_count others x)
      → (c ≡ false → Tally s.piece_count others y)
      → Tally s.piece_count others (if c then x else y)
  either true x y f g = f refl
  either false x y f g = g refl

  do_cmd_bitfield-Tally :
      (p : PiecePeer) (sum : BtPieceSum) (body : List ℕ)
      → p.linked ≡ true
      → All (λ b. b < 256) body
      → Tally s.piece_count others (p, sum)
      → Tally s.piece_count others (do_cmd_bitfield s p sum body)
  unfolding do_cmd_bitfield new_bitfield
  do_cmd_bitfield-Tally p sum body l a t =
      let bits = init_stream body s.piece_count in
      either (not p.shaked) _ _ (λ _. t)
        (λ _.
          either (length body == s.piece_count / 8 + (if s.piece_count % 8 == 0 then 0 else 1)) _ _
            (λ _.
              either
                (p.upload_mode && (not (s.is_honest bits) || not (s.is_peer_need_my_piece bits))) _
                _ (λ e. absurd (ground (arith, e, t.downloads)))
                (λ _.
                  got_bits-Tally s.piece_count others p (take_off p sum) bits l t.downloads
                    (init_stream-IsValid body s.piece_count a) (size-init_stream body s.piece_count)
                    (take_off-Counts s.piece_count others p sum l t)))
            (λ _. close_peer-Tally s.piece_count others p sum l t))

  do_cmd_have_all-Tally :
      (p : PiecePeer) (sum : BtPieceSum) (body : List ℕ)
      → p.linked ≡ true
      → Tally s.piece_count others (p, sum)
      → Tally s.piece_count others (do_cmd_have_all s p sum body)
  unfolding do_cmd_have_all
  do_cmd_have_all-Tally p sum body l t =
      let all = set_all_lem (Piece.init s.piece_count) (init-IsValid s.piece_count) in
      either (not p.fast_extension) _ _ (λ _. close_peer-Tally s.piece_count others p sum l t)
        (λ _.
          either (not (length body == 0)) _ _ (λ _. t)
            (λ _.
              either p.upload_mode _ _ (λ _. close_peer-Tally s.piece_count others p sum l t)
                (λ _.
                  got_bits-Tally s.piece_count others p (take_off p sum)
                    (set_all (Piece.init s.piece_count)) l t.downloads all.0
                    (all.1 ∙ size-init s.piece_count)
                    (take_off-Counts s.piece_count others p sum l t))))

  do_cmd_have_none-Tally :
      (p : PiecePeer) (sum : BtPieceSum) (body : List ℕ)
      → p.linked ≡ true
      → Tally s.piece_count others (p, sum)
      → Tally s.piece_count others (do_cmd_have_none s p sum body)
  unfolding do_cmd_have_none got_bits
  do_cmd_have_none-Tally p sum body l t =
      either (not p.fast_extension) _ _ (λ _. close_peer-Tally s.piece_count others p sum l t)
        (λ _.
          either (not (length body == 0)) _ _ (λ _. t)
            (λ _.
              either (p.upload_mode && not (s.is_honest (Piece.init s.piece_count))) _ _
                (λ e. absurd (ground (arith, e, t.downloads)))
                (λ _. record {
                  downloads = t.downloads;
                  bits_valid = init-IsValid s.piece_count;
                  bits_sized = λ _. size-init s.piece_count;
                  counts =
                      Counts-same s.piece_count others _ _
                        (λ i h. ground (arith, l, is_set-init s.piece_count i h))
                        (take_off-Counts s.piece_count others p sum l t);
                })))

  new_have-Tally :
      (p : PiecePeer) (sum : BtPieceSum) (j : ℕ)
      → p.linked ≡ true
      → j < s.piece_count
      → Tally s.piece_count others (p, sum)
      → Tally s.piece_count others (new_have s p sum j)
  unfolding new_have
  new_have-Tally p sum j l b t =
      either (not p.got_bit_set) _ _
        (λ e.
          got_bits-Tally s.piece_count others p sum (Piece.set (Piece.init s.piece_count) j true) l
            t.downloads (set-IsValid (Piece.init s.piece_count) j true (init-IsValid s.piece_count))
            (size-set (Piece.init s.piece_count) j true ∙ size-init s.piece_count)
            (Counts-same s.piece_count _ others sum (λ i h. ground (arith, e)) t.counts))
        (λ g.
          either (is_set p.peer_bit_set j) _ _ (λ _. t)
            (λ u. record {
              downloads = t.downloads;
              bits_valid = set-IsValid p.peer_bit_set j true t.bits_valid;
              bits_sized = λ _. size-set p.peer_bit_set j true ∙ t.bits_sized (ground (arith, g));
              counts =
                  Counts-same s.piece_count _ _ _ (λ i h. ground (arith, l, g))
                    (Counts-new_piece s.piece_count others sum p.peer_bit_set j t.bits_valid
                      (t.bits_sized (ground (arith, g))) b u
                      (Counts-same s.piece_count _ _ sum (λ i h. ground (arith, l, g)) t.counts));
            }))

  do_cmd_have-Tally :
      (p : PiecePeer) (sum : BtPieceSum) (body : List ℕ)
      → p.linked ≡ true
      → Tally s.piece_count others (p, sum)
      → Tally s.piece_count others (do_cmd_have s p sum body)
  unfolding do_cmd_have
  do_cmd_have-Tally p sum body l t =
      either (not (length body == 4) || not p.shaked) _ _ (λ _. t)
        (λ _.
          either (leb 2147483648 (word_at 0 body) || leb s.piece_count (word_at 0 body)) _ _
            (λ _. close_peer-Tally s.piece_count others p sum l t)
            (λ e. new_have-Tally p sum (word_at 0 body) l (ground (arith, e)) t))

-- What a connected peer sends of its pieces.
pub data Telling : Type 0 where
  bitfield : List ℕ → Telling
  have : List ℕ → Telling
  have_all : List ℕ → Telling
  have_none : List ℕ → Telling

abbrev pub IsBytes : Telling → Type 0
IsBytes (bitfield body) = All (λ b. b < 256) body
IsBytes _ = Unit

abbrev pub tell : Session → Counted → Telling → Counted
tell s x (bitfield body) = do_cmd_bitfield s x.0 x.1 body
tell s x (have body) = do_cmd_have s x.0 x.1 body
tell s x (have_all body) = do_cmd_have_all s x.0 x.1 body
tell s x (have_none body) = do_cmd_have_none s x.0 x.1 body

-- The messages until one closes the connection.
abbrev pub tell_all : Session → Counted → List Telling → Counted
tell_all s x [] = x
tell_all s x (m ∷ ms) = tell_all s (if x.0.linked then tell s x m else x) ms

module _ (s : Session) (others : ℕ → ℕ) where
  pub tell-Tally :
      (x : Counted) (m : Telling)
      → x.0.linked ≡ true
      → IsBytes m
      → Tally s.piece_count others x
      → Tally s.piece_count others (tell s x m)
  tell-Tally x (bitfield body) l a t = do_cmd_bitfield-Tally s others x.0 x.1 body l a t
  tell-Tally x (have body) l a t = do_cmd_have-Tally s others x.0 x.1 body l t
  tell-Tally x (have_all body) l a t = do_cmd_have_all-Tally s others x.0 x.1 body l t
  tell-Tally x (have_none body) l a t = do_cmd_have_none-Tally s others x.0 x.1 body l t

  tell_all-Tally :
      (x : Counted) (ms : List Telling)
      → All IsBytes ms
      → Tally s.piece_count others x
      → Tally s.piece_count others (tell_all s x ms)
  tell_all-Tally x [] a t = t
  tell_all-Tally x (m ∷ ms) a t =
      tell_all-Tally (if x.0.linked then tell s x m else x) ms a.1
        (either s others x.0.linked _ _ (λ l. tell-Tally x m l a.0 t) (λ _. t))

pub close_peer-Counts :
    (s : Session) (others : ℕ → ℕ) (x : Counted)
    → Tally s.piece_count others x
    → Counts s.piece_count others (close_peer x.0 x.1).1
unfolding close_peer
close_peer-Counts s others x t = elim (Bool-cases x.0.linked) [
  | inl l ↦
      subst (λ b. Counts s.piece_count others (if b then take_off x.0 x.1 else x.1)) (sym l)
        (take_off-Counts s.piece_count others x.0 x.1 l t)
  | inr l ↦
      subst (λ b. Counts s.piece_count others (if b then take_off x.0 x.1 else x.1)) (sym l)
        (Counts-same s.piece_count _ others x.1 (λ i h. ground (arith, l)) t.counts)
]

-- Whatever messages a peer sends of its pieces, in download mode and until one of them closes the
-- connection, the counters are those of the others plus the peer's pieces; once the connection is
-- closed, they are those of the others. It is so at the start, and the bytes are below 256.
pub close_peer-tell_all :
    (s : Session) (others : ℕ → ℕ) (p : PiecePeer) (sum : BtPieceSum) (ms : List Telling)
    → All IsBytes ms
    → Tally s.piece_count others (p, sum)
    → Tally s.piece_count others (tell_all s (p, sum) ms)
      × ((i : ℕ)
          → i < s.piece_count
          → let x = tell_all s (p, sum) ms in get_value (close_peer x.0 x.1).1 i ≡ pos (others i))
close_peer-tell_all s others p sum ms a t =
    let u = tell_all-Tally s others (p, sum) ms a t in
    (u, (close_peer-Counts s others (tell_all s (p, sum) ms) u).counted)

upload_bitfield :
    (s : Session) (p : PiecePeer) (sum : BtPieceSum) (body : List ℕ)
    → p.linked ≡ true
    → p.shaked ≡ true
    → p.upload_mode ≡ true
    → p.got_bit_set ≡ false
    → length body ≡ s.piece_count / 8 + (if s.piece_count % 8 == 0 then 0 else 1)
    → s.is_peer_need_my_piece (init_stream body s.piece_count) ≡ false
    → (do_cmd_bitfield s p sum body).1 ≡ sub sum (init_stream body s.piece_count)
unfolding do_cmd_bitfield new_bitfield close_peer take_off got_bits piece_change_notice
upload_bitfield s p sum body l k u g e n = ground (arith, l, k, u, g, e, n)

-- In upload mode a first bitfield of a peer that needs no piece of ours takes the peer's pieces off
-- counters that they were never added to. The bitfield is of the right length.
pub get_value-do_cmd_bitfield :
    (s : Session) (p : PiecePeer) (sum : BtPieceSum) (body : List ℕ) (i : ℕ)
    → p.linked ≡ true
    → p.shaked ≡ true
    → p.upload_mode ≡ true
    → p.got_bit_set ≡ false
    → length body ≡ s.piece_count / 8 + (if s.piece_count % 8 == 0 then 0 else 1)
    → s.is_peer_need_my_piece (init_stream body s.piece_count) ≡ false
    → IsValid sum
    → i < sum.size
    → get_value (do_cmd_bitfield s p sum body).1 i ≡ (
        if is_set (init_stream body s.piece_count) i
        then drop_one (get_value sum i)
        else get_value sum i)
get_value-do_cmd_bitfield s p sum body i l k u g e n v h =
    ap (λ c. get_value c i) (upload_bitfield s p sum body l k u g e n)
    ∙ get_value-sub sum (init_stream body s.piece_count) i v h
