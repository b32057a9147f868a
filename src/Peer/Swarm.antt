-- ===== src/Peer/Swarm.antt =====
-- The counters of benliud_bt/src/BTPieceSum.cpp while many peers of BTPeer.cpp connect, tell of their
-- pieces and close, in download mode.
use benliud.Common.{
  ℕ, zero, suc, ◌+◌, ◌<◌, ◌≡◌, refl, arith, Bool, true, false, ◌&&◌, List, [], ◌∷◌, All, bit,
}
use benliud.Common.Int.{pos}
use benliud.Piece.{is_set}
use benliud.Piece
use benliud.Piece.Laws.{init-IsValid}
use benliud.Piece.Laws
use benliud.PieceSum.{BtPieceSum, get_value}
use benliud.PieceSum
use benliud.PieceSum.Laws.{init-IsValid as sum-IsValid, size-init, get_value-init}
use benliud.Peer.Pieces.{PiecePeer, Session, Counted, close_peer}
use benliud.Peer.Tally.{Counts, Counts-same, Tally}
use benliud.Peer.Announcing.{Telling, IsBytes, tell, tell-Tally, close_peer-Counts}

-- The peers of the session, open and closed ones, and `m_bitPieceSum`.
pub record Swarm : Type 0 where
  pub peers : List PiecePeer
  pub sum : BtPieceSum

-- A peer that has connected, in download mode, before its handshake.
abbrev pub new_peer : PiecePeer
new_peer = record {
  linked = true;
  shaked = false;
  fast_extension = false;
  upload_mode = false;
  got_bit_set = false;
  peer_bit_set = Piece.init 0;
}

-- The start of a session of `n` pieces.
abbrev pub start : ℕ → Swarm
start n = record { peers = []; sum = PieceSum.init n (pos 0) }

-- What happens: a peer connects; the peer at a position sends its handshake, with or without the fast
-- extension; it sends a message; its connection closes.
pub data Event : Type 0 where
  connects : Event
  shakes : ℕ → Bool → Event
  tells : ℕ → Telling → Event
  closes : ℕ → Event

-- A message comes from an open connection, and its bytes are below 256.
abbrev IsAllowed : Event → PiecePeer → Type 0
IsAllowed (tells k m) p = (p.linked ≡ true) × IsBytes m
IsAllowed _ p = Unit

-- What is required of the peer at a position, if there is one.
abbrev HoldsAt : (PiecePeer → Type 0) → ℕ → List PiecePeer → Type 0
HoldsAt q k [] = Unit
HoldsAt q zero (p ∷ ps) = q p
HoldsAt q (suc k) (p ∷ ps) = HoldsAt q k ps

-- A change to the peer at a position, with the counters.
abbrev at : (Counted → Counted) → ℕ → List PiecePeer → BtPieceSum → List PiecePeer × BtPieceSum
at f k [] sum = ([], sum)
at f zero (p ∷ ps) sum = let x = f (p, sum) in (x.0 ∷ ps, x.1)
at f (suc k) (p ∷ ps) sum = let rest = at f k ps sum in (p ∷ rest.0, rest.1)

abbrev shake : Bool → Counted → Counted
shake fast x = (record x.0 { shaked = true; fast_extension = fast }, x.1)

abbrev change : Session → Event → Counted → Counted
change s connects x = x
change s (shakes k fast) x = shake fast x
change s (tells k m) x = tell s x m
change s (closes k) x = close_peer x.0 x.1

abbrev place : Event → ℕ
place connects = 0
place (shakes k fast) = k
place (tells k m) = k
place (closes k) = k

abbrev arrive : Event → List PiecePeer → List PiecePeer
arrive connects ps = new_peer ∷ ps
arrive _ ps = ps

abbrev pub step : Session → Swarm → Event → Swarm
step s w e =
    let x = at (change s e) (place e) (arrive e w.peers) w.sum in record { peers = x.0; sum = x.1 }

abbrev pub run : Session → Swarm → List Event → Swarm
run s w [] = w
run s w (e ∷ es) = run s (step s w e) es

-- Each event of a sequence is allowed when it happens.
abbrev pub AreAllowed : Session → Swarm → List Event → Type 0
AreAllowed s w [] = Unit
AreAllowed s w (e ∷ es) =
    HoldsAt (IsAllowed e) (place e) (arrive e w.peers) × AreAllowed s (step s w e) es

-- Whether an open peer has told that it has piece `i`, and how many such peers there are.
abbrev holds : ℕ → PiecePeer → ℕ
holds i p = bit (p.linked && (p.got_bit_set && is_set p.peer_bit_set i))

abbrev pub holders : ℕ → List PiecePeer → ℕ
holders i [] = 0
holders i (p ∷ ps) = holds i p + holders i ps

record Fits (n : ℕ) (p : PiecePeer) : Type 0 where
  pub downloads : p.upload_mode ≡ false
  pub bits_valid : Piece.Laws.IsValid p.peer_bit_set
  pub bits_sized : p.got_bit_set ≡ true → p.peer_bit_set.size ≡ n

-- The counters are those of `base` and of the peers.
record IsCounted (n : ℕ) (base : ℕ → ℕ) (x : List PiecePeer × BtPieceSum) : Type 0 where
  pub fits : All (Fits n) x.0
  pub counts : Counts n (λ i. base i + holders i x.0) x.1

Fits-Tally :
    (n : ℕ) (base : ℕ → ℕ) (p : PiecePeer) (ps : List PiecePeer) (sum : BtPieceSum)
    → IsCounted n base (p ∷ ps, sum)
    → Tally n (λ i. base i + holders i ps) (p, sum)
Fits-Tally n base p ps sum c = record {
  downloads = c.fits.0.downloads;
  bits_valid = c.fits.0.bits_valid;
  bits_sized = c.fits.0.bits_sized;
  counts = Counts-same n _ _ sum (λ i h. omega arith) c.counts;
}

at-IsCounted :
    (n : ℕ) (q : PiecePeer → Type 0) (f : Counted → Counted)
    → ((others : ℕ → ℕ) (x : Counted) → q x.0 → Tally n others x → Tally n others (f x))
    → (k : ℕ) (base : ℕ → ℕ) (ps : List PiecePeer) (sum : BtPieceSum) → HoldsAt q k ps
    → IsCounted n base (ps, sum)
    → IsCounted n base (at f k ps sum)
at-IsCounted n q f keeps k base [] sum a c = c
at-IsCounted n q f keeps zero base (p ∷ ps) sum a c =
    let t = keeps (λ i. base i + holders i ps) (p, sum) a (Fits-Tally n base p ps sum c) in
    record {
      fits = (
        record { downloads = t.downloads; bits_valid = t.bits_valid; bits_sized = t.bits_sized },
        c.fits.1,
      );
      counts = Counts-same n _ _ _ (λ i h. omega arith) t.counts;
    }
at-IsCounted n q f keeps (suc k) base (p ∷ ps) sum a c =
    let rest =
      at-IsCounted n q f keeps k (λ i. base i + holds i p) ps sum a
        (record {
          fits = c.fits.1;
          counts = Counts-same n _ _ sum (λ i h. omega arith) c.counts;
        }) in
    record {
      fits = (c.fits.0, rest.fits);
      counts = Counts-same n _ _ _ (λ i h. omega arith) rest.counts;
    }

change-Tally :
    (s : Session) (e : Event) (others : ℕ → ℕ) (x : Counted)
    → IsAllowed e x.0
    → Tally s.piece_count others x
    → Tally s.piece_count others (change s e x)
unfolding close_peer
change-Tally s connects others x a t = t
change-Tally s (shakes k fast) others x a t = record {
  downloads = t.downloads;
  bits_valid = t.bits_valid;
  bits_sized = t.bits_sized;
  counts = t.counts;
}
change-Tally s (tells k m) others x a t = tell-Tally s others x m a.0 a.1 t
change-Tally s (closes k) others x a t = record {
  downloads = t.downloads;
  bits_valid = t.bits_valid;
  bits_sized = t.bits_sized;
  counts =
      Counts-same s.piece_count others _ _ (λ i h. omega arith) (close_peer-Counts s others x t);
}

arrive-IsCounted :
    (n : ℕ) (e : Event) (ps : List PiecePeer) (sum : BtPieceSum)
    → IsCounted n (λ i. 0) (ps, sum)
    → IsCounted n (λ i. 0) (arrive e ps, sum)
arrive-IsCounted n connects ps sum c = record {
  fits = (
    record { downloads = refl; bits_valid = init-IsValid 0; bits_sized = λ e. absurd (cc) },
    c.fits,
  );
  counts = Counts-same n _ _ sum (λ i h. omega arith) c.counts;
}
arrive-IsCounted n (shakes k fast) ps sum c = c
arrive-IsCounted n (tells k m) ps sum c = c
arrive-IsCounted n (closes k) ps sum c = c

run-Counts :
    (s : Session) (w : Swarm) (es : List Event)
    → AreAllowed s w es
    → IsCounted s.piece_count (λ i. 0) (w.peers, w.sum)
    → Counts s.piece_count (λ i. holders i (run s w es).peers) (run s w es).sum
run-Counts s w [] a c = Counts-same s.piece_count _ _ w.sum (λ i h. omega arith) c.counts
run-Counts s w (e ∷ es) a c = run-Counts s (step s w e) es a.1 (
    at-IsCounted s.piece_count (IsAllowed e) (change s e) (change-Tally s e) (place e) (λ i. 0)
      (arrive e w.peers) w.sum a.0 (arrive-IsCounted s.piece_count e w.peers w.sum c))

start-IsCounted : (n : ℕ) → IsCounted n (λ i. 0) ((start n).peers, (start n).sum)
start-IsCounted n = record {
  fits = tt;
  counts = record {
    valid = sum-IsValid n (pos 0);
    sized = size-init n (pos 0);
    counted = λ i h. get_value-init n i (pos 0) h;
  };
}

-- In a session in download mode, however peers connect, shake hands, send their messages of pieces and
-- close, and in whatever order, the counter of each piece is the number of open connections whose
-- peer has told that it has the piece. Each message is obeyed while its connection is open, and its
-- bytes are below 256.
pub get_value-run :
    (s : Session) (es : List Event) (i : ℕ)
    → AreAllowed s (start s.piece_count) es
    → i < s.piece_count
    → let w = run s (start s.piece_count) es in get_value w.sum i ≡ pos (holders i w.peers)
get_value-run s es i a h =
    (run-Counts s (start s.piece_count) es a (start-IsCounted s.piece_count)).counted i h
