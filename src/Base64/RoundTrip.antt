-- ===== src/Base64/RoundTrip.antt =====
-- `base64_decode` of base64.cpp reads what `base64_encode` writes.
use benliud.Common.{
  ℕ, ◌+◌, ◌*◌, ◌/◌, ◌%◌, ◌<◌, ◌≡◌, refl, ap, ap₂, bit_and, true, false, not, ◌&&◌, arith, List, [],
  ◌∷◌, ◌++◌, All, length, ltb, ◌==◌, ==_iff, if◌then◌else◌, &&-eq-true,
}
use benliud.Common.Bytes.{all_below, all_below_sound, all_below₂_sound}
use benliud.Base64.{
  row, base64_chars, isalnum, is_base64, sextet0, sextet1, sextet2, sextet3, char_at, base64_encode,
  find_from, find_char, byte0, byte1, byte2, readable, decode_groups, base64_decode,
}

char_table :
    all_below 64
      (λ n. find_char (char_at n) == n && (not (char_at n == 61) && is_base64 (char_at n)))
    ≡ true
unfolding all_below find_char char_at find_from base64_chars row is_base64 isalnum
char_table = refl

-- A character of the alphabet is read, and found where it stands.
char_at_lem :
    (n : ℕ)
    → n < 64
    → (find_char (char_at n) ≡ n) × ((not (char_at n == 61) && is_base64 (char_at n)) ≡ true)
char_at_lem n h =
    let r = (&&-eq-true _ _).0 (all_below_sound 64 _ n char_table h) in ((==_iff _ _).0 r.0, r.1)

table0 : all_below 256 (λ a. sextet0 a == a / 4 && sextet3 a == a % 64) ≡ true
unfolding all_below sextet0 sextet3
table0 = refl

sextet0_lem : (a : ℕ) → a < 256 → sextet0 a ≡ a / 4
sextet0_lem a h = (==_iff _ _).0 ((&&-eq-true _ _).0 (all_below_sound 256 _ a table0 h)).0

sextet3_lem : (a : ℕ) → a < 256 → sextet3 a ≡ a % 64
sextet3_lem a h = (==_iff _ _).0 ((&&-eq-true _ _).0 (all_below_sound 256 _ a table0 h)).1

table1 :
    all_below 256 (λ a. all_below 256 (λ b.
      ltb (sextet1 a b) 64
      && (bit_and (sextet1 a b) 0x30 / 16 == a % 4 && bit_and (sextet1 a b) 0xf == b / 16)))
    ≡ true
unfolding all_below sextet1
table1 = refl

table2 :
    all_below 256 (λ b. all_below 256 (λ c.
      ltb (sextet2 b c) 64
      && (bit_and (sextet2 b c) 0x3c / 4 == b % 16 && bit_and (sextet2 b c) 0x3 == c / 64)))
    ≡ true
unfolding all_below sextet2
table2 = refl

sextet1_lem :
    (a b : ℕ)
    → a < 256
    → b < 256
    → (sextet1 a b < 64)
      × (bit_and (sextet1 a b) 0x30 / 16 ≡ a % 4)
      × (bit_and (sextet1 a b) 0xf ≡ b / 16)
sextet1_lem a b ha hb = ground (
  arith,
  all_below₂_sound 256 256
      (λ a b.
        ltb (sextet1 a b) 64
        && (bit_and (sextet1 a b) 0x30 / 16 == a % 4 && bit_and (sextet1 a b) 0xf == b / 16))
      a b table1 ha hb,
)

sextet2_lem :
    (b c : ℕ)
    → b < 256
    → c < 256
    → (sextet2 b c < 64)
      × (bit_and (sextet2 b c) 0x3c / 4 ≡ b % 16)
      × (bit_and (sextet2 b c) 0x3 ≡ c / 64)
sextet2_lem b c hb hc = ground (
  arith,
  all_below₂_sound 256 256
      (λ b c.
        ltb (sextet2 b c) 64
        && (bit_and (sextet2 b c) 0x3c / 4 == b % 16 && bit_and (sextet2 b c) 0x3 == c / 64))
      b c table2 hb hc,
)

-- The three bytes that four sextets give back.
bytes_back :
    (a b c : ℕ)
    → a < 256
    → b < 256
    → c < 256
    → (byte0 (sextet0 a) (sextet1 a b) ≡ a)
      × (byte1 (sextet1 a b) (sextet2 b c) ≡ b)
      × (byte2 (sextet2 b c) (sextet3 c) ≡ c)
unfolding byte0 byte1 byte2
bytes_back a b c ha hb hc = (
  omega (arith, sextet0_lem a ha, sextet1_lem a b ha hb),
  omega (arith, sextet1_lem a b ha hb, sextet2_lem b c hb hc),
  omega (arith, sextet3_lem c hc, sextet2_lem b c hb hc),
)

readable_char : (n : ℕ) (cs : List ℕ) → n < 64 → readable (char_at n ∷ cs) ≡ char_at n ∷ readable cs
unfolding readable
readable_char n cs h = ground (arith, (char_at_lem n h).1)

readable_pad : (cs : List ℕ) → readable (61 ∷ cs) ≡ []
unfolding readable
readable_pad cs = refl

find_char_at : (n : ℕ) → n < 64 → find_char (char_at n) ≡ n
find_char_at n h = (char_at_lem n h).0

-- Three bytes of which the last ones may be the zeros that fill up.
decode_three :
    (a b c : ℕ)
    → a < 256
    → b < 256
    → c < 256
    → (byte0 (find_char (char_at (sextet0 a))) (find_char (char_at (sextet1 a b))) ≡ a)
      × (byte1 (find_char (char_at (sextet1 a b))) (find_char (char_at (sextet2 b c))) ≡ b)
      × (byte2 (find_char (char_at (sextet2 b c))) (find_char (char_at (sextet3 c))) ≡ c)
decode_three a b c ha hb hc =
    rw
      (
        find_char_at (sextet0 a) (omega (arith, sextet0_lem a ha)),
        find_char_at (sextet1 a b) (sextet1_lem a b ha hb).0,
        find_char_at (sextet2 b c) (sextet2_lem b c hb hc).0,
        find_char_at (sextet3 c) (omega (arith, sextet3_lem c hc)),
      )
      (bytes_back a b c ha hb hc)

-- Whatever bytes are encoded, decoding gives them back, also where the last group is filled up.
pub base64_decode-base64_encode :
    (bytes : List ℕ) → All (λ b. b < 256) bytes → base64_decode (base64_encode bytes) ≡ bytes
unfolding base64_decode base64_encode decode_groups
base64_decode-base64_encode [] h = unfold readable in refl
base64_decode-base64_encode (a ∷ []) h =
    rw
      (
        readable_char (sextet0 a) _ (omega (arith, sextet0_lem a h.0)),
        readable_char (sextet1 a 0) _ (sextet1_lem a 0 h.0 (omega arith)).0,
        readable_pad (61 ∷ []),
      )
      (ap (λ x. x ∷ []) (decode_three a 0 0 h.0 (omega arith) (omega arith)).0)
base64_decode-base64_encode (a ∷ (b ∷ [])) h =
    let d = decode_three a b 0 h.0 h.1.0 (omega arith) in
    rw
      (
        readable_char (sextet0 a) _ (omega (arith, sextet0_lem a h.0)),
        readable_char (sextet1 a b) _ (sextet1_lem a b h.0 h.1.0).0,
        readable_char (sextet2 b 0) _ (sextet2_lem b 0 h.1.0 (omega arith)).0,
        readable_pad [],
      )
      (ap₂ (λ x y. x ∷ y ∷ []) d.0 d.1)
base64_decode-base64_encode (a ∷ (b ∷ (c ∷ bs))) h =
    let d = decode_three a b c h.0 h.1.0 h.1.1.0 in
    rw
      (
        readable_char (sextet0 a) _ (omega (arith, sextet0_lem a h.0)),
        readable_char (sextet1 a b) _ (sextet1_lem a b h.0 h.1.0).0,
        readable_char (sextet2 b c) _ (sextet2_lem b c h.1.0 h.1.1.0).0,
        readable_char (sextet3 c) _ (omega (arith, sextet3_lem c h.1.1.0)),
        d.0,
        d.1,
        d.2,
      )
      (ap (λ xs. a ∷ b ∷ c ∷ xs) (base64_decode-base64_encode bs h.1.1.1))

-- The text is four characters for every three bytes, the last group filled up.
length-base64_encode : (bytes : List ℕ) → length (base64_encode bytes) ≡ (length bytes + 2) / 3 * 4
unfolding base64_encode
length-base64_encode [] = refl
length-base64_encode (a ∷ []) = refl
length-base64_encode (a ∷ (b ∷ [])) = refl
length-base64_encode (a ∷ (b ∷ (c ∷ bs))) = omega (arith, length-base64_encode bs)

readable-append :
    (cs ds : List ℕ) (x : ℕ)
    → (not (x == 61) && is_base64 x) ≡ false
    → readable (cs ++ x ∷ ds) ≡ readable cs
unfolding readable
readable-append [] ds x h = rw h
readable-append (c ∷ cs) ds x h =
    ap (λ xs. if not (c == 61) && is_base64 c then c ∷ xs else []) (readable-append cs ds x h)

-- The text ends for `base64_decode` at the first `=` or other character that is not base 64:
-- nothing from there on matters.
base64_decode-append :
    (cs ds : List ℕ) (x : ℕ)
    → (not (x == 61) && is_base64 x) ≡ false
    → base64_decode (cs ++ x ∷ ds) ≡ base64_decode cs
unfolding base64_decode
base64_decode-append cs ds x h = ap decode_groups (readable-append cs ds x h)
