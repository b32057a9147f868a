-- ===== src/Dht/Key.antt =====
-- benliud_btkad/src/BTDHTKey.cpp: keys of 20 bytes, their order, and the distance of two keys.
pub mod Order
pub mod Distance
pub mod Value
mod Tests
use benliud.Common.{
  ℕ, zero, suc, ◌%◌, ◌<◌, ◌≡◌, Bool, true, false, not, ◌&&◌, ◌||◌, List, [], ◌∷◌, All, length,
  replicate, ltb, ◌==◌, if◌then◌else◌, bit_xor,
}

-- The member `hash`.
abbrev pub Key : Type 0
Key = List ℕ

pub record IsKey (k : Key) : Type 0 where
  pub sized : length k ≡ 20
  pub in_range : All (λ b. b < 256) k

-- `BTDHTKey()`
abbrev pub zero_key : Key
zero_key = replicate 20 0

-- `operator==`
unfoldable pub eq : Key → Key → Bool
eq [] [] = true
eq (x ∷ xs) (y ∷ ys) = if not (x == y) then false else eq xs ys
eq _ _ = false

-- `operator!=`
unfoldable pub ne : Key → Key → Bool
ne [] [] = false
ne (x ∷ xs) (y ∷ ys) = if not (x == y) then true else ne xs ys
ne _ _ = true

-- `operator<`
unfoldable pub lt : Key → Key → Bool
lt [] [] = false
lt (x ∷ xs) (y ∷ ys) =
    let rest = lt xs ys in if ltb x y then true else if ltb y x then false else rest
lt _ _ = false

-- `operator<=`
unfoldable pub le : Key → Key → Bool
le k l = lt k l || eq k l

-- `operator>`
unfoldable pub gt : Key → Key → Bool
gt [] [] = false
gt (x ∷ xs) (y ∷ ys) =
    let rest = gt xs ys in if ltb x y then false else if ltb y x then true else rest
gt _ _ = false

-- `operator>=`
unfoldable pub ge : Key → Key → Bool
ge k l = gt k l || eq k l

-- `operator-`: the exclusive or of each byte.
unfoldable pub minus : Key → Key → Key
minus (x ∷ xs) (y ∷ ys) = bit_xor x y ∷ minus xs ys
minus _ _ = []

-- `Random`, over the numbers that `rand` returns.
unfoldable pub random : List ℕ → Key
random [] = []
random (n ∷ ns) = (n % 0xFF) ∷ random ns
