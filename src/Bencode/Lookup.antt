-- ===== src/Bencode/Lookup.antt =====
-- The calls of BaseLibs/src/BenNode.cpp that read a tree: the value of a key, the members of a list,
-- an integer and a string.
use benliud.Common.{
  ℕ, zero, suc, ◌≡◌, refl, Bool, true, false, List, [], ◌∷◌, All, ◌==◌, if◌then◌else◌, Bool-cases,
  inl, inr,
}
use benliud.Common.Int.{ℤ, pos, negsuc}
use benliud.Bencode.{
  NodeType, be_list, be_dict, be_dict_pair, Node, Slot, Nodes, node, empty, full, nil, cons,
  c_string,
}
use benliud.Bencode.Stream.Spine.{pair, dict_of}
use benliud.Bencode.Stream.Values.{
  Pairs, dict, no_pairs, pair_then, build, build_pairs, PairsHavePlainKeys, c_string-plain,
}

-- `==` of two strings.
eq_bytes : List ℕ → List ℕ → Bool
eq_bytes [] [] = true
eq_bytes (x ∷ xs) (y ∷ ys) = if x == y then eq_bytes xs ys else false
eq_bytes _ _ = false

pub get_type : Node → NodeType
get_type (node nt v k s kv cs op) = nt

is_list : NodeType → Bool
is_list be_list = true
is_list _ = false

is_dict : NodeType → Bool
is_dict be_dict = true
is_dict _ = false

count : Nodes → ℕ
count nil = 0
count (cons c cs) = suc (count cs)

pub get_number_of_list : Node → ℕ
get_number_of_list (node nt v k s kv cs op) = if is_list nt then count cs else 0

pub get_number_of_dict : Node → ℕ
get_number_of_dict (node nt v k s kv cs op) = if is_dict nt then count cs else 0

-- `m_pChild[seq]`
member : Nodes → ℕ → Slot
member nil seq = empty
member (cons c cs) zero = full c
member (cons c cs) (suc seq) = member cs seq

pub get_list_member : Node → ℤ → Slot
get_list_member (node nt v k s kv cs op) (pos seq) = member cs seq
get_list_member (node nt v k s kv cs op) (negsuc seq) = empty

pub get_int_value : Node → ℤ
get_int_value (node nt v k s kv cs op) = v

pub get_string_value : Node → List ℕ
get_string_value (node nt v k s kv cs op) = s

-- `GetKeyValue(key)`: the value of the first entry of a dictionary with this key. `strcmp` stops at
-- a zero byte.
child_value : List ℕ → Nodes → Slot
child_value key nil = empty
child_value key (cons (node be_dict_pair v k s kv cs op) ds) =
    if eq_bytes (c_string k) (c_string key) then kv else child_value key ds
child_value key (cons c ds) = child_value key ds

pub get_key_value : List ℕ → Node → Slot
get_key_value key (node be_dict v k s kv cs op) = child_value key cs
get_key_value key n = empty

or_else : Slot → Slot → Slot
or_else empty other = other
or_else (full n) other = full n

-- `FindKeyValue`: it looks through the members of lists too, but not into the value of an entry.
mutual
  pub find_key_value : List ℕ → Node → Slot
  find_key_value key (node be_dict_pair v k s kv cs op) =
      if eq_bytes k (c_string key) then kv else empty
  find_key_value key (node be_list v k s kv cs op) = find_among key cs
  find_key_value key (node be_dict v k s kv cs op) = find_among key cs
  find_key_value key n = empty

  find_among : List ℕ → Nodes → Slot
  find_among key nil = empty
  find_among key (cons c cs) = or_else (find_key_value key c) (find_among key cs)

-- The value of the first entry with a key.
pub lookup : List ℕ → Pairs → Slot
lookup key no_pairs = empty
lookup key (pair_then k v ps) = if eq_bytes k key then full (build v) else lookup key ps

child_value_lem :
    (key : List ℕ) (ps : Pairs)
    → c_string key ≡ key
    → PairsHavePlainKeys ps
    → child_value key (build_pairs ps) ≡ lookup key ps
unfolding child_value build_pairs lookup pair PairsHavePlainKeys
child_value_lem key no_pairs z h = refl
child_value_lem key (pair_then k v ps) z h =
    rw (c_string-plain k h.0, z, child_value_lem key ps z h.2) refl

find_among_lem :
    (key : List ℕ) (ps : Pairs)
    → c_string key ≡ key
    → find_among key (build_pairs ps) ≡ lookup key ps
unfolding find_key_value or_else build_pairs lookup pair
find_among_lem key no_pairs z = refl
find_among_lem key (pair_then k v ps) z = elim (Bool-cases (eq_bytes k key)) [
  | inl e ↦ rw (z, e) refl
  | inr e ↦ rw (z, e, find_among_lem key ps z) refl
]

-- On the tree of a dictionary whose keys hold no zero byte, for a key that holds none either, both
-- `GetKeyValue` and `FindKeyValue` give the value of the first entry with that key, and none if
-- there is no such entry.
pub key_value_lem :
    (key : List ℕ) (ps : Pairs)
    → All (λ c. (c == 0) ≡ false) key
    → PairsHavePlainKeys ps
    → (get_key_value key (build (dict ps)) ≡ lookup key ps)
      × (find_key_value key (build (dict ps)) ≡ lookup key ps)
unfolding get_key_value find_key_value build dict_of
key_value_lem key ps z h =
    (child_value_lem key ps (c_string-plain key z) h, find_among_lem key ps (c_string-plain key z))
