-- ===== src/Rc4.antt =====
-- benliud_bt/src/MSE_Rc4encryptor.cpp: the stream cipher of encrypted connections.
pub mod State
pub mod RoundTrip
mod Tests
use benliud.Common.{ℕ, zero, suc, ◌+◌, ◌-◌, ◌*◌, ◌%◌, List, [], ◌∷◌, length, get_or, set, bit_xor}

-- `RC4`: the two counters and the state table.
pub record Rc4 : Type 0 where
  pub i : ℕ
  pub j : ℕ
  pub s : List ℕ

-- `swap(s[a], s[b])`
pub swap : List ℕ → ℕ → ℕ → List ℕ
swap s a b = set (set s a (get_or s b 0)) b (get_or s a 0)

-- `s[t] = t` for the `n` values from `t` on.
pub count_up : ℕ → ℕ → List ℕ
count_up zero t = []
count_up (suc n) t = t ∷ count_up n (t + 1)

-- The mixing loop of the constructor, with `n` rounds left from `u` on.
pub mix : ℕ → ℕ → List ℕ → ℕ → List ℕ → List ℕ
mix zero u key j s = s
mix (suc n) u key j s =
    let j' = (j + get_or s u 0 + get_or key (u % length key) 0) % 256 in
    mix n (u + 1) key j' (swap s u j')

-- `RC4(key, size)`
pub new : List ℕ → Rc4
new key = record { i = 0; j = 0; s = mix 256 0 key 0 (count_up 256 0) }

-- The state after one byte.
pub advance : Rc4 → Rc4
advance c =
    let i' = (c.i + 1) % 256 in
    let j' = (c.j + get_or c.s i' 0) % 256 in record { i = i'; j = j'; s = swap c.s i' j' }

-- The byte of the key stream that the state reached yields.
pub output : Rc4 → ℕ
output c = get_or c.s ((get_or c.s c.i 0 + get_or c.s c.j 0) % 256) 0

-- `process(b)`
pub process_byte : Rc4 → ℕ → Rc4 × ℕ
process_byte c b = let c' = advance c in (c', bit_xor (output c') b)

-- `process(in, out, size)`
pub process : Rc4 → List ℕ → Rc4 × List ℕ
process c [] = (c, [])
process c (b ∷ bs) =
    let (c', x) = process_byte c b in let (c'', xs) = process c' bs in (c'', x ∷ xs)

-- The cipher after `n` bytes whose values do not matter.
pub skip : ℕ → Rc4 → Rc4
skip zero c = c
skip (suc n) c = skip n (advance c)

pub record Rc4Encryptor : Type 0 where
  pub enc : Rc4
  pub dec : Rc4

-- `RC4Encryptor(dk, ek)`: both ciphers drop their first 1024 bytes.
pub new_encryptor : List ℕ → List ℕ → Rc4Encryptor
new_encryptor dk ek = record { enc = skip 1024 (new ek); dec = skip 1024 (new dk) }

-- `decrypt`
pub decrypt : Rc4Encryptor → List ℕ → Rc4Encryptor × List ℕ
decrypt e bytes = let (c, out) = process e.dec bytes in (record e { dec = c }, out)

-- `encrypt(data, len)` and `encryptReplace`: the same bytes, into another buffer or in place.
pub encrypt : Rc4Encryptor → List ℕ → Rc4Encryptor × List ℕ
encrypt e bytes = let (c, out) = process e.enc bytes in (record e { enc = c }, out)
