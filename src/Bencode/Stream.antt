-- ===== src/Bencode/Stream.antt =====
-- `EncodeToStream` and `FromStream` of BenNode.cpp, with the decimal numbers that `sprintf` writes
-- and `atoi` reads. The model is that of a stream whose numbers fit their types and the
-- 512 bytes of `buf`, and whose lengths do not lead past its end; it does not cut the former, and
-- stops the latter at the end.
pub mod Decimal
pub mod Spine
pub mod Rounds
pub mod Values
pub mod Whole
pub mod RoundTrip
mod Tests
use benliud.Common.{
  ℕ, zero, suc, ◌+◌, ◌-◌, ◌*◌, ◌/◌, ◌%◌, Bool, true, false, not, ◌&&◌, ◌||◌, List, [], ◌∷◌, ◌++◌,
  length, take, drop, ltb, leb, ◌==◌, if◌then◌else◌,
}
use benliud.Common.Int.{ℤ, pos, negsuc}
use benliud.Bencode.{
  NodeType, be_null, be_string, be_int, be_list, be_dict, be_dict_pair, Operator, Node, Slot, Nodes,
  node, empty, full, nil, cons, Action, open_dictionary, open_list, close_dictionary, close_list,
  add_int, add_text, act,
}

-- `sprintf("%d")` of a number that is not negative, from its last digit on; `fuel` is more than the
-- number of digits.
unfoldable pub decimal : ℕ → ℕ → List ℕ → List ℕ
decimal zero n out = out
decimal (suc fuel) n out =
    let rest = decimal fuel (n / 10) ((48 + n % 10) ∷ out) in
    if ltb n 10 then (48 + n) ∷ out else rest

unfoldable pub show_nat : ℕ → List ℕ
show_nat n = decimal (suc n) n []

-- `sprintf("%lld")`
unfoldable pub show_int : ℤ → List ℕ
show_int (pos n) = show_nat n
show_int (negsuc n) = 45 ∷ show_nat (suc n)

unfoldable pub is_digit : ℕ → Bool
is_digit c = leb 48 c && leb c 57

-- The digits at the front of a text, and the rest.
unfoldable pub span_digits : List ℕ → List ℕ × List ℕ
span_digits [] = ([], [])
span_digits (c ∷ cs) =
    let rest = span_digits cs in if is_digit c then (c ∷ rest.0, rest.1) else ([], c ∷ cs)

-- The number that digits spell behind `n`.
unfoldable pub number : ℕ → List ℕ → ℕ
number n [] = n
number n (c ∷ cs) = number (n * 10 + (c - 48)) cs

-- `atoi`, on digits.
unfoldable pub atoi : List ℕ → ℕ
atoi cs = number 0 (span_digits cs).0

-- `isspace`, in the C locale.
unfoldable pub is_space : ℕ → Bool
is_space c = c == 32 || (leb 9 c && leb c 13)

unfoldable pub skip_spaces : List ℕ → List ℕ
skip_spaces [] = []
skip_spaces (c ∷ cs) = if is_space c then skip_spaces cs else c ∷ cs

unfoldable pub negate : ℕ → ℤ
negate zero = pos 0
negate (suc n) = negsuc n

-- `_atoi64`: spaces, a sign, and digits.
unfoldable pub atoi_signed : List ℕ → ℤ
atoi_signed [] = pos 0
atoi_signed (c ∷ cs) =
    if c == 45 then negate (atoi cs) else if c == 43 then pos (atoi cs) else pos (atoi (c ∷ cs))

unfoldable pub atoi64 : List ℕ → ℤ
atoi64 cs = atoi_signed (skip_spaces cs)

-- A string with its length in front.
unfoldable pub show_text : List ℕ → List ℕ
show_text s = show_nat (length s) ++ 58 ∷ s

-- `EncodeToStream`: what it appends for a node, for each child and for a key value.
unfoldable mutual
  pub encode : Node → List ℕ
  encode (node be_null v k s kv cs op) = []
  encode (node be_list v k s kv cs op) = 108 ∷ (encode_all cs ++ 101 ∷ [])
  encode (node be_dict v k s kv cs op) = 100 ∷ (encode_all cs ++ 101 ∷ [])
  encode (node be_int v k s kv cs op) = 105 ∷ (show_int v ++ 101 ∷ [])
  encode (node be_string v k s kv cs op) = show_text s
  encode (node be_dict_pair v k s kv cs op) = show_text k ++ encode_slot kv

  pub encode_all : Nodes → List ℕ
  encode_all nil = []
  encode_all (cons c cs) = encode c ++ encode_all cs

  pub encode_slot : Slot → List ℕ
  encode_slot empty = []
  encode_slot (full n) = encode n

-- `Clean`: it leaves `m_nValue`, `m_sKey`, `m_sValue` and `m_pOperator` as they are.
unfoldable pub clean : Node → Node
clean (node be_list v k s kv cs op) = node be_null v k s empty nil op
clean (node be_dict v k s kv cs op) = node be_null v k s empty nil op
clean (node nt v k s kv cs op) = node be_null v k s empty cs op

-- What one round of `FromStream` does: it goes on with the rest of the stream, stops with a result,
-- or leaves the loop.
pub data Round : Type 0 where
  goes_on : Node → List ℕ → List ℕ → Round
  returns : Node → ℤ → Round
  quits : Node → List ℕ → Round

-- `i`, an integer and `e`; the characters up to the `e` and what follows it.
unfoldable pub to_end : List ℕ → List ℕ × List ℕ
to_end [] = ([], [])
to_end (c ∷ cs) = let rest = to_end cs in if c == 101 then ([], c ∷ cs) else (c ∷ rest.0, rest.1)

unfoldable pub read_int : Node → List ℕ → List ℕ × List ℕ → Round
read_int root queue (text, []) = returns root (negsuc 3)
read_int root queue (text, e ∷ rest) = goes_on (act (add_int (atoi64 text)) root).0 queue rest

-- A length, `:` and as many bytes.
unfoldable pub read_text : Node → List ℕ → List ℕ × List ℕ → Round
read_text root queue (digits, []) = returns root (negsuc 5)
read_text root queue (digits, c ∷ rest) =
    if c == 58
    then goes_on (act (add_text (take (atoi digits) rest)) root).0 queue (drop (atoi digits) rest)
    else returns root (negsuc 5)

-- `e` closes what was opened last: `OpQueue` holds 0 for a dictionary and 1 for a list, its back at
-- the head here. When the outermost dictionary is closed, the reading is over.
unfoldable pub read_close : Node → List ℕ → List ℕ → Round
read_close root [] rest = returns root (negsuc 4)
read_close root (op ∷ queue) rest =
    if op == 1
    then goes_on (act close_list root).0 queue rest
    else if length queue == 0
    then quits (act close_dictionary root).0 queue
    else goes_on (act close_dictionary root).0 queue rest

-- The `switch` on the next character.
unfoldable pub round : Node → List ℕ → ℕ → List ℕ → Round
round root queue c cs =
    if c == 100
    then goes_on (act open_dictionary root).0 (0 ∷ queue) cs
    else if c == 108
    then goes_on (act open_list root).0 (1 ∷ queue) cs
    else if c == 105
    then read_int root queue (to_end cs)
    else if c == 101
    then read_close root queue cs
    else if is_digit c
    then read_text root queue (span_digits (c ∷ cs))
    else quits root queue

-- `left == 0 ? 0 : -6`, on what is still open.
unfoldable pub result : List ℕ → ℤ
result [] = pos 0
result (op ∷ queue) = negsuc 5

-- The loop, with fuel for the rounds.
unfoldable pub read_loop : ℕ → Node → List ℕ → List ℕ → Node × ℤ
read_loop zero root queue cs = (root, result queue)
read_loop (suc fuel) root queue [] = (root, result queue)
read_loop (suc fuel) root queue (c ∷ cs) = elim (round root queue c cs) [
  | goes_on root' queue' rest ↦ read_loop fuel root' queue' rest
  | returns root' code ↦ (root', code)
  | quits root' queue' ↦ (root', result queue')
]

-- `FromStream`: a round reads one character at least.
unfoldable pub from_stream : Node → List ℕ → Node × ℤ
from_stream root stream = read_loop (length stream) (clean root) [] stream

-- `ToStream`
unfoldable pub to_stream : Node → List ℕ
to_stream root = encode root
