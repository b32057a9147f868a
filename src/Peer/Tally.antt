-- ===== src/Peer/Tally.antt =====
-- The counters of pieces while one peer of benliud_bt/src/BTPeer.cpp is connected.
use benliud.Common.{
  ℕ, suc, ◌+◌, ◌<◌, ◌≡◌, refl, sym, ap, subst, ◌∙◌, arith, Bool, true, false, ◌&&◌, ◌==◌,
  if◌then◌else◌, bit, Bool-cases, inl, inr,
}
use benliud.Common.Int.{ℤ, pos, succ}
use benliud.Piece.{BtPiece, is_set, set_all, init_stream}
use benliud.Piece
use benliud.Piece.Laws.{
  init-IsValid, init_stream-IsValid, set-IsValid, size-set, size-init, size-init_stream, is_set-set,
  is_set-init,
}
use benliud.Piece.Laws
use benliud.PieceSum.{BtPieceSum, drop_one, get_value}
use benliud.PieceSum.Laws.{
  IsValid, add-IsValid, sub-IsValid, new_piece-IsValid, size-add, size-sub, size-new_piece,
  get_value-add, get_value-sub, get_value-new_piece,
}
use benliud.PieceSum.Notices.{piece_change_notice, peer_have_new_piece_notice}
use benliud.Peer.Pieces.{PiecePeer, Counted, take_off, close_peer, got_bits}

-- The counters of `n` pieces are the numbers of a function.
pub record Counts (n : ℕ) (f : ℕ → ℕ) (sum : BtPieceSum) : Type 0 where
  pub valid : IsValid sum
  pub sized : sum.size ≡ n
  pub counted : (i : ℕ) → i < n → get_value sum i ≡ pos (f i)

one_more : (b : Bool) (z : ℤ) (k : ℕ) → z ≡ pos k → (if b then succ z else z) ≡ pos (k + bit b)
unfolding succ
one_more true z k e = rw e (ap pos {x = suc k} {y = k + 1} (omega arith))
one_more false z k e = e ∙ ap pos {x = k} {y = k + 0} (omega arith)

one_less : (b : Bool) (z : ℤ) (k : ℕ) → z ≡ pos (k + bit b) → (if b then drop_one z else z) ≡ pos k
unfolding drop_one
one_less true z k e = rw (e ∙ ap pos {x = k + 1} {y = suc k} (omega arith)) refl
one_less false z k e = e ∙ ap pos {x = k + 0} {y = k} (omega arith)

one_piece :
    (b : Bool) (z : ℤ) (k : ℕ) (t u : Bool)
    → (b ≡ true → t ≡ false)
    → z ≡ pos (k + bit t)
    → u ≡ (if b then true else t)
    → (if b then succ z else z) ≡ pos (k + bit u)
unfolding succ
one_piece true z k t u f e g =
    rw (e ∙ ap pos {x = k + bit t} {y = k} (ground (arith, f refl)), g)
      (ap pos {x = suc k} {y = k + 1} (omega arith))
one_piece false z k t u f e g = e ∙ ap (λ c. pos (k + bit c)) (sym g)

Counts-add :
    (n : ℕ) (f : ℕ → ℕ) (sum : BtPieceSum) (bits : BtPiece)
    → Counts n f sum
    → Counts n (λ i. f i + bit (is_set bits i)) (piece_change_notice sum bits true)
unfolding piece_change_notice
Counts-add n f sum bits c = record {
  valid = add-IsValid sum bits c.valid;
  sized = size-add sum bits ∙ c.sized;
  counted = λ i h.
      get_value-add sum bits i c.valid (omega (arith, h, c.sized))
      ∙ one_more (is_set bits i) (get_value sum i) (f i) (c.counted i h);
}

Counts-sub :
    (n : ℕ) (f : ℕ → ℕ) (sum : BtPieceSum) (bits : BtPiece)
    → Counts n (λ i. f i + bit (is_set bits i)) sum
    → Counts n f (piece_change_notice sum bits false)
unfolding piece_change_notice
Counts-sub n f sum bits c = record {
  valid = sub-IsValid sum bits c.valid;
  sized = size-sub sum bits ∙ c.sized;
  counted = λ i h.
      get_value-sub sum bits i c.valid (omega (arith, h, c.sized))
      ∙ one_less (is_set bits i) (get_value sum i) (f i) (c.counted i h);
}

pub Counts-new_piece :
    (n : ℕ) (f : ℕ → ℕ) (sum : BtPieceSum) (bits : BtPiece) (j : ℕ)
    → Piece.Laws.IsValid bits
    → bits.size ≡ n
    → j < n
    → is_set bits j ≡ false
    → Counts n (λ i. f i + bit (is_set bits i)) sum
    → Counts n
        (λ i. f i + bit (is_set (Piece.set bits j true) i))
        (peer_have_new_piece_notice sum j)
unfolding peer_have_new_piece_notice
Counts-new_piece n f sum bits j v s l u c = record {
  valid = new_piece-IsValid sum j c.valid;
  sized = size-new_piece sum j ∙ c.sized;
  counted = λ i h.
      get_value-new_piece sum j i c.valid (omega (arith, l, c.sized))
      ∙ one_piece (j == i) (get_value sum i) (f i) (is_set bits i)
          (is_set (Piece.set bits j true) i)
          (λ e. ap (is_set bits) {x = i} {y = j} (ground (arith, e)) ∙ u) (c.counted i h)
          (is_set-set bits j i true v (omega (arith, l, s)));
}

-- The counters of a session with a peer, over what the other peers have: while it is connected, its
-- pieces are counted too.
pub record Tally (n : ℕ) (others : ℕ → ℕ) (x : Counted) : Type 0 where
  pub downloads : x.0.upload_mode ≡ false
  pub bits_valid : Piece.Laws.IsValid x.0.peer_bit_set
  pub bits_sized : x.0.got_bit_set ≡ true → x.0.peer_bit_set.size ≡ n
  pub counts :
      Counts n
        (λ i. others i + bit (x.0.linked && (x.0.got_bit_set && is_set x.0.peer_bit_set i)))
        x.1

pub Counts-same :
    (n : ℕ) (f g : ℕ → ℕ) (sum : BtPieceSum)
    → ((i : ℕ) → i < n → f i ≡ g i)
    → Counts n f sum
    → Counts n g sum
Counts-same n f g sum e c = record {
  valid = c.valid;
  sized = c.sized;
  counted = λ i h. c.counted i h ∙ ap pos (e i h);
}

-- Without the pieces of the peer.
pub take_off-Counts :
    (n : ℕ) (others : ℕ → ℕ) (p : PiecePeer) (sum : BtPieceSum)
    → p.linked ≡ true
    → Tally n others (p, sum)
    → Counts n others (take_off p sum)
unfolding take_off
take_off-Counts n others p sum l t = elim (Bool-cases p.got_bit_set) [
  | inl e ↦ rw e (
      Counts-sub n others sum p.peer_bit_set
        (Counts-same n _ _ sum (λ i h. ground (arith, l, e)) t.counts))
  | inr e ↦ rw e (Counts-same n _ _ sum (λ i h. ground (arith, l, e)) t.counts)
]

pub close_peer-Tally :
    (n : ℕ) (others : ℕ → ℕ) (p : PiecePeer) (sum : BtPieceSum)
    → p.linked ≡ true
    → Tally n others (p, sum)
    → Tally n others (close_peer p sum)
unfolding close_peer
close_peer-Tally n others p sum l t = record {
  downloads = t.downloads;
  bits_valid = t.bits_valid;
  bits_sized = t.bits_sized;
  counts =
      Counts-same n _ _ _ (λ i h. omega arith)
        (subst (λ b. Counts n others (if b then take_off p sum else sum)) (sym l)
          (take_off-Counts n others p sum l t));
}

-- The pieces of the peer, counted anew.
pub got_bits-Tally :
    (n : ℕ) (others : ℕ → ℕ) (p : PiecePeer) (sum : BtPieceSum) (bits : BtPiece)
    → p.linked ≡ true
    → p.upload_mode ≡ false
    → Piece.Laws.IsValid bits
    → bits.size ≡ n
    → Counts n others sum
    → Tally n others (got_bits p bits, piece_change_notice sum bits true)
unfolding got_bits
got_bits-Tally n others p sum bits l d v s c = record {
  downloads = d;
  bits_valid = v;
  bits_sized = λ _. s;
  counts = Counts-same n _ _ _ (λ i h. ground (arith, l)) (Counts-add n others sum bits c);
}
