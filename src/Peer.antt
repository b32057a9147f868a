-- ===== src/Peer.antt =====
-- benliud_bt/src/BTPeer.cpp: the messages that a peer writes to its connection. A `Send...` function
-- is here the bytes it hands to SendData.
pub mod Packets
pub mod Chunks
pub mod Words
pub mod Messages
pub mod Uploads
pub mod Requests
pub mod Queue
pub mod Serve
pub mod Pieces
pub mod Tally
pub mod Announcing
pub mod Swarm
pub mod Downloads
pub mod Arrivals
mod Tests
mod PieceTests
use benliud.Common.{ℕ, ◌+◌, ◌*◌, ◌/◌, ◌%◌, Bool, List, [], ◌∷◌, ◌++◌, length, get_or, if◌then◌else◌}

-- The bytes of `htonl(n)` for an unsigned int.
unfoldable pub htonl : ℕ → List ℕ
htonl n = n / 16777216 % 256 ∷ n / 65536 % 256 ∷ n / 256 % 256 ∷ n % 256 ∷ []

-- `ntohl` of four bytes.
unfoldable pub ntohl : ℕ → ℕ → ℕ → ℕ → ℕ
ntohl a b c d = a * 16777216 + b * 65536 + c * 256 + d

-- `memcpy(&x, data + k, 4); x = ntohl(x);`
unfoldable pub word_at : ℕ → List ℕ → ℕ
word_at k xs =
    ntohl (get_or xs k 0) (get_or xs (k + 1) 0) (get_or xs (k + 2) 0) (get_or xs (k + 3) 0)

-- A message: the length in four bytes, the number of the command, and its data.
unfoldable pub packet : ℕ → List ℕ → List ℕ
packet id body = htonl (1 + length body) ++ id ∷ body

-- The data of a request, of its cancelling and of its rejection.
unfoldable pub block_words : ℕ → ℕ → ℕ → List ℕ
block_words index offset len = htonl index ++ htonl offset ++ htonl len

unfoldable pub send_keep_alive : List ℕ
send_keep_alive = 0 ∷ 0 ∷ 0 ∷ 0 ∷ []

-- What `SendChoke`, `SendUnChoke` and `SendInterested` send.
unfoldable pub choke_packet : List ℕ
choke_packet = packet 0 []

unfoldable pub un_choke_packet : List ℕ
un_choke_packet = packet 1 []

unfoldable pub interested_packet : Bool → List ℕ
interested_packet interested = packet (if interested then 2 else 3) []

-- The `SendBitfield` of a torrent that neither is empty nor complete, or has no fast extension.
unfoldable pub send_bitfield : List ℕ → List ℕ
send_bitfield bitfield = packet 5 bitfield

unfoldable pub send_have : ℕ → List ℕ
send_have index = packet 4 (htonl index)

unfoldable pub send_request : ℕ → ℕ → ℕ → List ℕ
send_request index offset len = packet 6 (block_words index offset len)

unfoldable pub send_piece_data : ℕ → ℕ → List ℕ → List ℕ
send_piece_data index offset bytes = packet 7 (htonl index ++ htonl offset ++ bytes)

unfoldable pub send_piece_cancel : ℕ → ℕ → ℕ → List ℕ
send_piece_cancel index offset len = packet 8 (block_words index offset len)

-- With the fast extension; without it nothing is sent.
unfoldable pub send_reject_request : Bool → ℕ → ℕ → ℕ → List ℕ
send_reject_request fast index offset len =
    if fast then packet 16 (block_words index offset len) else []
