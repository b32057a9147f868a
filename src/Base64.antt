-- ===== src/Base64.antt =====
-- BaseLibs/src/base64.cpp: base 64, for strings of bytes. Bytes and characters are numbers.
pub mod RoundTrip
mod Tests
use benliud.Common.{
  ℕ, zero, suc, ◌+◌, ◌*◌, ◌/◌, ◌%◌, bit_and, Bool, true, false, not, ◌&&◌, ◌||◌, List, [], ◌∷◌,
  ◌++◌, get_or, leb, ◌==◌, if◌then◌else◌,
}

-- `n` character codes from `c` on.
pub row : ℕ → ℕ → List ℕ
row zero c = []
row (suc n) c = c ∷ row n (c + 1)

-- `base64_chars`: the letters, the digits, `+` and `/`.
pub base64_chars : List ℕ
base64_chars = row 26 65 ++ row 26 97 ++ row 10 48 ++ 43 ∷ 47 ∷ []

-- `isalnum`, in the C locale.
pub isalnum : ℕ → Bool
isalnum c = (leb 48 c && leb c 57) || ((leb 65 c && leb c 90) || (leb 97 c && leb c 122))

-- `is_base64`
pub is_base64 : ℕ → Bool
is_base64 c = isalnum c || (c == 43 || c == 47)

-- `char_array_4` from the three bytes of `char_array_3`.
pub sextet0 : ℕ → ℕ
sextet0 a = bit_and a 0xfc / 4

pub sextet1 : ℕ → ℕ → ℕ
sextet1 a b = bit_and a 0x03 * 16 + bit_and b 0xf0 / 16

pub sextet2 : ℕ → ℕ → ℕ
sextet2 b c = bit_and b 0x0f * 4 + bit_and c 0xc0 / 64

pub sextet3 : ℕ → ℕ
sextet3 c = bit_and c 0x3f

-- `base64_chars[n]`
pub char_at : ℕ → ℕ
char_at n = get_or base64_chars n 0

-- `base64_encode`: three bytes make four characters; one or two bytes at the end, filled up with
-- zeros, make two or three characters and `=` for the rest.
pub base64_encode : List ℕ → List ℕ
base64_encode [] = []
base64_encode (a ∷ []) = char_at (sextet0 a) ∷ char_at (sextet1 a 0) ∷ 61 ∷ 61 ∷ []
base64_encode (a ∷ (b ∷ [])) =
    char_at (sextet0 a) ∷ char_at (sextet1 a b) ∷ char_at (sextet2 b 0) ∷ 61 ∷ []
base64_encode (a ∷ (b ∷ (c ∷ bs))) =
    char_at (sextet0 a)
    ∷ char_at (sextet1 a b)
    ∷ char_at (sextet2 b c)
    ∷ char_at (sextet3 c)
    ∷ base64_encode bs

-- `find` on a string from index `i` on, as an `unsigned char`: 255 where the character is absent.
pub find_from : ℕ → List ℕ → ℕ → ℕ
find_from i [] c = 255
find_from i (x ∷ xs) c = if x == c then i % 256 else find_from (i + 1) xs c

-- `base64_chars.find(c)`
pub find_char : ℕ → ℕ
find_char c = find_from 0 base64_chars c

-- `char_array_3` from the four values of `char_array_4`, on `unsigned char`.
pub byte0 : ℕ → ℕ → ℕ
byte0 p q = (p * 4 + bit_and q 0x30 / 16) % 256

pub byte1 : ℕ → ℕ → ℕ
byte1 q r = (bit_and q 0xf * 16 + bit_and r 0x3c / 4) % 256

pub byte2 : ℕ → ℕ → ℕ
byte2 r s = (bit_and r 0x3 * 64 + s) % 256

-- The characters that the loop of `base64_decode` reads: it stops at `=` and at any other
-- character that is not base 64.
pub readable : List ℕ → List ℕ
readable [] = []
readable (c ∷ cs) = let rest = readable cs in if not (c == 61) && is_base64 c then c ∷ rest else []

-- What the loop makes of them: four characters make three bytes; two or three at the end make one
-- or two, and a single one makes none.
pub decode_groups : List ℕ → List ℕ
decode_groups [] = []
decode_groups (p ∷ []) = []
decode_groups (p ∷ (q ∷ [])) = byte0 (find_char p) (find_char q) ∷ []
decode_groups (p ∷ (q ∷ (r ∷ []))) =
    byte0 (find_char p) (find_char q) ∷ byte1 (find_char q) (find_char r) ∷ []
decode_groups (p ∷ (q ∷ (r ∷ (s ∷ cs)))) =
    byte0 (find_char p) (find_char q)
    ∷ byte1 (find_char q) (find_char r)
    ∷ byte2 (find_char r) (find_char s)
    ∷ decode_groups cs

-- `base64_decode`
pub base64_decode : List ℕ → List ℕ
base64_decode cs = decode_groups (readable cs)
