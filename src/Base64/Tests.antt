-- ===== src/Base64/Tests.antt =====
-- base64.cpp at concrete inputs, and its theorems where their hypotheses hold.
use benliud.Common.{ℕ, ◌≡◌, refl, arith, List, [], ◌∷◌}
use benliud.Base64.{
  row, base64_chars, isalnum, is_base64, sextet0, sextet1, sextet2, char_at, base64_encode,
  find_from, find_char, byte0, byte1, byte2, readable, decode_groups, base64_decode,
}
use benliud.Base64.RoundTrip.{base64_decode-base64_encode}

-- `Ma` and `TWE=`
abbrev two_bytes : List ℕ
two_bytes = 77 ∷ 97 ∷ []

encodes : base64_encode two_bytes ≡ 84 ∷ 87 ∷ 69 ∷ 61 ∷ []
unfolding base64_encode char_at sextet0 sextet1 sextet2 base64_chars row
encodes = refl

decodes : base64_decode (84 ∷ 87 ∷ 70 ∷ 117 ∷ 10 ∷ 84 ∷ []) ≡ 77 ∷ 97 ∷ 110 ∷ []
unfolding base64_decode readable decode_groups is_base64 isalnum find_char find_from base64_chars
    row byte0 byte1 byte2
decodes = refl

base64_decode-base64_encode_example : base64_decode (base64_encode two_bytes) ≡ two_bytes
base64_decode-base64_encode_example = base64_decode-base64_encode two_bytes (omega arith)
