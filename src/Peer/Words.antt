-- ===== src/Peer/Words.antt =====
-- The words and packets of benliud_bt/src/BTPeer.cpp, as the other peer reads them.
use benliud.Common.{
  ℕ, suc, ◌+◌, ◌-◌, ◌/◌, ◌%◌, ◌≤◌, ◌<◌, ◌≡◌, refl, ap, ap₂, ◌∙◌, arith, false, List, ◌∷◌, ◌++◌,
  length, take, ge→ltb, lt→ltb, le→leb, ◌==◌, length-append, take_append, drop_append,
}
use benliud.SingleRequest.{chunk_len}
use benliud.Peer.{htonl, ntohl, word_at, packet, block_words, send_keep_alive}
use benliud.Peer.Packets.{command, keep_alive, too_long, front_of, front}

ntohl-htonl : (n : ℕ) (xs : List ℕ) → n < 4294967296 → word_at 0 (htonl n ++ xs) ≡ n
unfolding ntohl htonl word_at
ntohl-htonl n xs h = omega arith

pub word_at-block_words :
    (i o l : ℕ)
    → i < 4294967296
    → o < 4294967296
    → l < 4294967296
    → (word_at 0 (block_words i o l) ≡ i)
      × (word_at 4 (block_words i o l) ≡ o)
      × (word_at 8 (block_words i o l) ≡ l)
unfolding ntohl htonl word_at block_words
word_at-block_words i o l a b c = (omega arith, omega arith, omega arith)

over_limit : (n : ℕ) → 1 ≤ n → (n == 0) ≡ false
over_limit n h = ground arith

not_zero : (n : ℕ) → (suc n == 0) ≡ false
not_zero n = ground arith

front_of-whole :
    (id : ℕ) (body more : List ℕ)
    → length body < 4 + 8 + chunk_len
    → front_of (suc (length body)) (id ∷ (body ++ more)) ≡ command id body more
unfolding front_of
front_of-whole id body more h =
    rw
      (
        not_zero (length body),
        ge→ltb (4 + 8 + chunk_len) (suc (length body)) (omega arith),
        le→leb (suc (length body) + 4) (suc (length (body ++ more)) + 4)
            (omega (arith, length-append body more)),
      )
      (ap₂ (command id)
        (ap (λ k. take k (body ++ more)) {x = suc (length body) - 1} {y = length body} (omega arith)
          ∙ take_append body more)
        (drop_append body more))

ntohl_bytes :
    (n : ℕ)
    → n < 4294967296
    → ntohl (n / 16777216 % 256) (n / 65536 % 256) (n / 256 % 256) (n % 256) ≡ n
unfolding ntohl
ntohl_bytes n h = omega arith

pub front-packet :
    (id : ℕ) (body more : List ℕ)
    → length body < 4 + 8 + chunk_len
    → front (packet id body ++ more) ≡ command id body more
unfolding front packet htonl
front-packet id body more h =
    ap (λ n. front_of n (id ∷ (body ++ more)))
      (ntohl_bytes (1 + length body) (omega arith) ∙ (omega arith))
    ∙ front_of-whole id body more h

pub front-keep_alive : (more : List ℕ) → front (send_keep_alive ++ more) ≡ keep_alive more
unfolding front front_of send_keep_alive ntohl
front-keep_alive more = refl

pub front-too_long :
    (id : ℕ) (body more : List ℕ)
    → 4 + 8 + chunk_len ≤ length body
    → length body < 4294967295
    → front (packet id body ++ more) ≡ too_long
unfolding front front_of packet htonl
front-too_long id body more a b =
    rw
      (
        ntohl_bytes (1 + length body) (omega arith),
        over_limit (1 + length body) (omega arith),
        lt→ltb (4 + 8 + chunk_len) (1 + length body) (omega arith),
      )
      refl
