-- ===== src/Peer/Packets.antt =====
-- The loop at the end of CBTPeer::ProcessData of benliud_bt/src/BTPeer.cpp, which cuts what has come
-- from the connection into messages.
use benliud.Common.{
  ℕ, zero, suc, Bool, false, ◌+◌, ◌-◌, List, ◌∷◌, ◌++◌, length, get_or, take, drop, ltb, leb, ◌==◌,
  if◌then◌else◌,
}
use benliud.SingleRequest.{chunk_len}
use benliud.Peer.{ntohl}

-- What stands at the front of `m_recvBuffer`, with what follows it.
pub data Front : Type 0 where
  incomplete : Front
  too_long : Front
  keep_alive : List ℕ → Front
  command : ℕ → List ℕ → List ℕ → Front

-- The tests of one round, on `packlen` and the bytes behind it.
unfoldable pub front_of : ℕ → List ℕ → Front
front_of packlen rest =
    if packlen == 0
    then keep_alive rest
    else if ltb (4 + 8 + chunk_len) packlen
    then too_long
    else if leb (packlen + 4) (length rest + 4)
    then command (get_or rest 0 0) (take (packlen - 1) (drop 1 rest)) (drop packlen rest)
    else incomplete

unfoldable pub front : List ℕ → Front
front (a ∷ b ∷ c ∷ d ∷ rest) = front_of (ntohl a b c d) rest
front _ = incomplete

-- The peer and `m_recvBuffer`, or the peer whose connection was closed for bad data.
pub data Link {ℓ} (P : Type ℓ) : Type ℓ where
  waiting : P → List ℕ → Link P
  bad_data : P → Link P

-- What the loop calls: `DoCmd`, the note of the tick, and `OnClose` with CR_BAD_DATA; and whether the
-- connection is open, which `OnClose` ends.
pub record Handlers {ℓ} (P : Type ℓ) : Type ℓ where
  pub on_cmd : P → ℕ → List ℕ → P
  pub active : P → P
  pub close : P → P
  pub is_open : P → Bool

module _ {ℓ} {P : Type ℓ} (h : Handlers P) where
  -- One round; `next` is the rest of the loop.
  unfoldable pub packet_round : (P → List ℕ → Link P) → P → List ℕ → Front → Link P
  packet_round next p buffer incomplete = waiting p buffer
  packet_round next p buffer too_long = bad_data (h.close p)
  packet_round next p buffer (keep_alive rest) = next (h.active p) rest
  packet_round next p buffer (command id body rest) = next (h.on_cmd p id body) rest

  -- The loop, with fuel for the rounds.
  unfoldable pub process_data : ℕ → P → List ℕ → Link P
  process_data zero p buffer = waiting p buffer
  process_data (suc fuel) p buffer = packet_round (process_data fuel) p buffer (front buffer)

  -- `m_recvBuffer` grows and the loop runs.
  unfoldable pub resume : Link P → List ℕ → Link P
  resume (waiting p buffer) bytes = process_data (length (buffer ++ bytes)) p (buffer ++ bytes)
  resume (bad_data p) bytes = bad_data p

  unfoldable pub reads : Link P → Bool
  reads (waiting p buffer) = h.is_open p
  reads (bad_data p) = false

  -- `DoRead`, when more bytes have come. `OnClose` closes the socket and sets `m_bCanRead` to false, so
  -- nothing is read any more, be it for bad data or by a handler of `DoCmd`; the messages that came with
  -- the closing one are handled all the same, since the loop goes on.
  unfoldable pub recv_data : Link P → List ℕ → Link P
  recv_data link bytes = if reads link then resume link bytes else link
