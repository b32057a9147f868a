-- ===== src/Peer/Messages.antt =====
-- The messages that benliud_bt/src/BTPeer.cpp sends, as CBTPeer::ProcessData of the other peer takes
-- them from the connection.
use benliud.Common.{
  ℕ, suc, ◌+◌, ◌≤◌, ◌<◌, ◌≡◌, refl, sym, ap, ◌∙◌, arith, Bool, true, Option, none, some, inl, inr,
  List, [], ◌∷◌, ◌++◌, length, All, if◌then◌else◌, append_assoc, append-nil,
}
use benliud.SingleRequest.{chunk_len}
use benliud.Peer.{
  htonl, block_words, send_keep_alive, choke_packet, un_choke_packet, interested_packet,
  send_bitfield, send_have, send_request, send_piece_data, send_piece_cancel, send_reject_request,
}
use benliud.Peer.Packets.{
  Front, incomplete, too_long, keep_alive, command, front, Link, waiting, bad_data, Handlers,
  packet_round, process_data, resume, reads, recv_data,
}
use benliud.Peer.Chunks.{
  rest_of, extend, IsWhole, front-shorter, front-extend, process_data_fuel, resume_append,
  recv_data_open,
}
use benliud.Peer.Words.{front-packet, front-keep_alive, front-too_long}

-- A message that is sent.
pub data Message : Type 0 where
  alive : Message
  choke : Message
  un_choke : Message
  interested : Bool → Message
  have : ℕ → Message
  bitfield : List ℕ → Message
  request : ℕ → ℕ → ℕ → Message
  piece_data : ℕ → ℕ → List ℕ → Message
  piece_cancel : ℕ → ℕ → ℕ → Message
  reject_request : ℕ → ℕ → ℕ → Message

abbrev pub bytes_of : Message → List ℕ
bytes_of alive = send_keep_alive
bytes_of choke = choke_packet
bytes_of un_choke = un_choke_packet
bytes_of (interested flag) = interested_packet flag
bytes_of (have index) = send_have index
bytes_of (bitfield bits) = send_bitfield bits
bytes_of (request index offset len) = send_request index offset len
bytes_of (piece_data index offset bytes) = send_piece_data index offset bytes
bytes_of (piece_cancel index offset len) = send_piece_cancel index offset len
bytes_of (reject_request index offset len) = send_reject_request true index offset len

-- A bitfield of less than 16,396 bytes, and a block of at most `_CHUNK_LEN` bytes.
abbrev pub IsShort : Message → Type 0
IsShort (bitfield bits) = length bits < 4 + 8 + chunk_len
IsShort (piece_data index offset bytes) = length bytes ≤ chunk_len
IsShort _ = Unit

-- The number and the body of a message; a keep-alive has none.
abbrev pub parts : Message → Option (ℕ × List ℕ)
parts alive = none
parts choke = some (0, [])
parts un_choke = some (1, [])
parts (interested flag) = some (if flag then 2 else 3, [])
parts (have index) = some (4, htonl index)
parts (bitfield bits) = some (5, bits)
parts (request index offset len) = some (6, block_words index offset len)
parts (piece_data index offset bytes) = some (7, htonl index ++ htonl offset ++ bytes)
parts (piece_cancel index offset len) = some (8, block_words index offset len)
parts (reject_request index offset len) = some (16, block_words index offset len)

module _ {ℓ} {P : Type ℓ} (h : Handlers P) where
  abbrev act : P → Option (ℕ × List ℕ) → P
  act p none = h.active p
  act p (some (id, body)) = h.on_cmd p id body

  -- What the other peer does for a message.
  abbrev pub obey : P → Message → P
  obey p m = act p (parts m)

  abbrev pub obey_all : P → List Message → P
  obey_all p [] = p
  obey_all p (m ∷ ms) = obey_all (obey p m) ms

  -- No message closes the connection.
  abbrev pub AreOpen : P → List Message → Type 0
  AreOpen p [] = h.is_open p ≡ true
  AreOpen p (m ∷ ms) = (h.is_open p ≡ true) × AreOpen (obey p m) ms

  abbrev pub recv_all : Link P → List (List ℕ) → Link P
  recv_all link [] = link
  recv_all link (c ∷ cs) = recv_all (recv_data h link c) cs

abbrev pub joined : List (List ℕ) → List ℕ
joined [] = []
joined (xs ∷ xss) = xs ++ joined xss

abbrev pub sent_bytes : List Message → List ℕ
sent_bytes [] = []
sent_bytes (m ∷ ms) = bytes_of m ++ sent_bytes ms

-- The front with a message of these parts.
abbrev front_with : Option (ℕ × List ℕ) → List ℕ → Front
front_with none more = keep_alive more
front_with (some (id, body)) more = command id body more

front-message :
    (m : Message) (more : List ℕ)
    → IsShort m
    → front (bytes_of m ++ more) ≡ front_with (parts m) more
unfolding choke_packet un_choke_packet interested_packet send_have send_bitfield send_request
    send_piece_data send_piece_cancel send_reject_request block_words htonl
front-message alive more s = front-keep_alive more
front-message choke more s = front-packet 0 [] more (omega arith)
front-message un_choke more s = front-packet 1 [] more (omega arith)
front-message (interested flag) more s = front-packet (if flag then 2 else 3) [] more (omega arith)
front-message (have i) more s = front-packet 4 (htonl i) more (omega arith)
front-message (bitfield bits) more s = front-packet 5 bits more s
front-message (request i o l) more s = front-packet 6 (block_words i o l) more (omega arith)
front-message (piece_data i o bytes) more s =
    front-packet 7 (htonl i ++ htonl o ++ bytes) more (omega (arith, s))
front-message (piece_cancel i o l) more s = front-packet 8 (block_words i o l) more (omega arith)
front-message (reject_request i o l) more s = front-packet 16 (block_words i o l) more (omega arith)

-- A front that is a message when more bytes have come is so before.
behind :
    (f : Front) (k : Option (ℕ × List ℕ)) (ys more : List ℕ)
    → IsWhole f
    → extend f ys ≡ front_with k more
    → (rest : List ℕ) × (f ≡ front_with k rest) × (rest ++ ys ≡ more)
behind incomplete k ys more w e = absurd w
behind too_long none ys more w e = absurd (cc)
behind too_long (some (id, body)) ys more w e = absurd (cc)
behind (keep_alive r) none ys more w e = (r, refl, cc)
behind (keep_alive r) (some (id, body)) ys more w e = absurd (cc)
behind (command i b r) none ys more w e = absurd (cc)
behind (command i b r) (some (id, body)) ys more w e = (r, cc, cc)

rest_of-front_with : (k : Option (ℕ × List ℕ)) (rest : List ℕ) → rest_of (front_with k rest) ≡ rest
rest_of-front_with none rest = refl
rest_of-front_with (some (id, body)) rest = refl

module _ {ℓ} {P : Type ℓ} (h : Handlers P) where
  one_round :
      (p : P) (xs : List ℕ)
      → resume h (waiting p []) xs ≡ packet_round h (process_data h (length xs)) p xs (front xs)
  unfolding resume process_data
  one_round p xs =
      process_data_fuel h (length xs) (suc (length xs)) p xs (omega arith) (omega arith)

  nothing_received : (p : P) → resume h (waiting p []) [] ≡ waiting p []
  unfolding resume process_data
  nothing_received p = refl

  act_round :
      (next : P → List ℕ → Link P) (p : P) (xs : List ℕ) (k : Option (ℕ × List ℕ)) (rest : List ℕ)
      → packet_round h next p xs (front_with k rest) ≡ next (act h p k) rest
  unfolding packet_round
  act_round next p xs none rest = refl
  act_round next p xs (some (id, body)) rest = refl

  -- A message at the front is obeyed.
  resume-front_with :
      (p : P) (k : Option (ℕ × List ℕ)) (xs rest : List ℕ)
      → front xs ≡ front_with k rest
      → resume h (waiting p []) xs ≡ resume h (waiting (act h p k) []) rest
  unfolding resume
  resume-front_with p k xs rest e =
      let size : length rest ≤ length xs = omega (
        arith,
        front-shorter xs (length xs) (omega arith),
        ap {A = List ℕ} length (ap rest_of e ∙ rest_of-front_with k rest),
      ) in
      one_round p xs
      ∙ ap (packet_round h (process_data h (length xs)) p xs) e
      ∙ act_round (process_data h (length xs)) p xs k rest
      ∙ process_data_fuel h (length xs) (length rest) (act h p k) rest size (omega arith)

  resume-sent_bytes :
      (p : P) (ms : List Message)
      → All IsShort ms
      → resume h (waiting p []) (sent_bytes ms) ≡ waiting (obey_all h p ms) []
  resume-sent_bytes p [] a = nothing_received p
  resume-sent_bytes p (m ∷ ms) a =
      resume-front_with p (parts m) (sent_bytes (m ∷ ms)) (sent_bytes ms)
        (front-message m (sent_bytes ms) a.0)
      ∙ resume-sent_bytes (obey h p m) ms a.1

  -- Between two chunks the connection is open.
  open_between :
      (p : P) (ms : List Message) (xs ys : List ℕ)
      → All IsShort ms
      → AreOpen h p ms
      → xs ++ ys ≡ sent_bytes ms
      → reads h (resume h (waiting p []) xs) ≡ true
  unfolding reads packet_round
  open_between p [] [] ys a o e = ap (reads h) (nothing_received p) ∙ o
  open_between p [] (x ∷ xs) ys a o e = absurd (cc)
  open_between p (m ∷ ms) xs ys a o e = elim (front-extend xs ys) [
    | inl f ↦
        ap (reads h) (one_round p xs ∙ ap (packet_round h (process_data h (length xs)) p xs) f)
        ∙ o.0
    | inr (w, f) ↦
        let b =
          behind (front xs) (parts m) ys (sent_bytes ms) w
            (sym f ∙ ap front e ∙ front-message m (sent_bytes ms) a.0) in
        ap (reads h) (resume-front_with p (parts m) xs b.0 b.1)
        ∙ open_between (obey h p m) ms b.0 ys a.1 o.1 b.2
  ]

  recv_all-resume :
      (p : P) (ms : List Message) (xs : List ℕ) (cs : List (List ℕ))
      → All IsShort ms
      → AreOpen h p ms
      → xs ++ joined cs ≡ sent_bytes ms
      → recv_all h (resume h (waiting p []) xs) cs ≡ resume h (waiting p []) (xs ++ joined cs)
  recv_all-resume p ms xs [] a o e = ap (resume h (waiting p [])) (sym (append-nil xs))
  recv_all-resume p ms xs (c ∷ cs) a o e =
      ap (λ l. recv_all h l cs)
        (recv_data_open h (resume h (waiting p []) xs) c
            (open_between p ms xs (joined (c ∷ cs)) a o e)
          ∙ resume_append h (waiting p []) xs c)
      ∙ recv_all-resume p ms (xs ++ c) cs a o (append_assoc xs c (joined cs) ∙ e)
      ∙ ap (resume h (waiting p [])) (append_assoc xs c (joined cs))

  -- Messages whose bytes come in any chunks are obeyed one after the other, and no byte is left: the
  -- connection is open, and no message closes it; a bitfield among them has less than 16,396 bytes, and
  -- a block at most 16,384.
  pub recv_all-joined :
      (p : P) (ms : List Message) (cs : List (List ℕ))
      → All IsShort ms
      → AreOpen h p ms
      → joined cs ≡ sent_bytes ms
      → recv_all h (waiting p []) cs ≡ waiting (obey_all h p ms) []
  recv_all-joined p ms cs a o e =
      ap (λ l. recv_all h l cs) (sym (nothing_received p))
      ∙ recv_all-resume p ms [] cs a o e
      ∙ ap (resume h (waiting p [])) e
      ∙ resume-sent_bytes p ms a

  -- A bitfield of 16,396 bytes or more, of a torrent of more than 131,160 pieces, closes a connection
  -- that is open, whatever follows it, and a closed one does not read it: it has less than 2^32 - 1
  -- bytes.
  pub recv_data-send_bitfield :
      (p : P) (bits more : List ℕ)
      → 4 + 8 + chunk_len ≤ length bits
      → length bits < 4294967295
      → recv_data h (waiting p []) (send_bitfield bits ++ more)
        ≡ (if h.is_open p then bad_data (h.close p) else waiting p [])
  unfolding packet_round send_bitfield recv_data reads
  recv_data-send_bitfield p bits more a b =
      ap (λ l. if h.is_open p then l else waiting p [])
        (one_round p (send_bitfield bits ++ more)
          ∙ ap
              (packet_round h (process_data h (length (send_bitfield bits ++ more))) p
                (send_bitfield bits ++ more))
              (front-too_long 5 bits more a b))
