-- ===== src/Bencode/Stream/Values.antt =====
-- What a bencoded text stands for, without the bookkeeping of BenNode.cpp, and the tree of nodes
-- that represents it.
use benliud.Common.{ℕ, suc, ◌≡◌, refl, ap, false, List, [], ◌∷◌, All, ◌==◌}
use benliud.Common.Int.{ℤ}
use benliud.Bencode.{Node, Nodes, nil, cons, full, push, nothing, int_node, text_node, c_string}
use benliud.Bencode.Stream.Spine.{pair, list_of, dict_of}

-- An integer, a byte string, a list, or a dictionary with its entries in order.
mutual
  pub data Value : Type 0 where
    int : ℤ → Value
    text : List ℕ → Value
    list : Values → Value
    dict : Pairs → Value

  pub data Values : Type 0 where
    no_values : Values
    value_then : Value → Values → Values

  pub data Pairs : Type 0 where
    no_pairs : Pairs
    pair_then : List ℕ → Value → Pairs → Pairs

-- Its representation, with no node open.
unfoldable mutual
  pub build : Value → Node
  build (int z) = int_node z
  build (text s) = text_node s
  build (list vs) = list_of (build_all vs) nothing
  build (dict ps) = dict_of (build_pairs ps) nothing

  pub build_all : Values → Nodes
  build_all no_values = nil
  build_all (value_then v vs) = cons (build v) (build_all vs)

  pub build_pairs : Pairs → Nodes
  build_pairs no_pairs = nil
  build_pairs (pair_then key v ps) = cons (pair key (full (build v))) (build_pairs ps)

-- No key of a dictionary holds a zero byte.
unfoldable mutual
  pub HasPlainKeys : Value → Type 0
  HasPlainKeys (int z) = Unit
  HasPlainKeys (text s) = Unit
  HasPlainKeys (list vs) = HavePlainKeys vs
  HasPlainKeys (dict ps) = PairsHavePlainKeys ps

  pub HavePlainKeys : Values → Type 0
  HavePlainKeys no_values = Unit
  HavePlainKeys (value_then v vs) = HasPlainKeys v × HavePlainKeys vs

  pub PairsHavePlainKeys : Pairs → Type 0
  PairsHavePlainKeys no_pairs = Unit
  PairsHavePlainKeys (pair_then key v ps) =
      All (λ c. (c == 0) ≡ false) key × HasPlainKeys v × PairsHavePlainKeys ps

-- The fuel that leaves `f` when `FromStream` has read its text.
unfoldable mutual
  pub fuel : Value → ℕ → ℕ
  fuel (int z) f = suc f
  fuel (text s) f = suc f
  fuel (list vs) f = suc (fuel_all vs (suc f))
  fuel (dict ps) f = suc (fuel_pairs ps (suc f))

  pub fuel_all : Values → ℕ → ℕ
  fuel_all no_values f = f
  fuel_all (value_then v vs) f = fuel v (fuel_all vs f)

  pub fuel_pairs : Pairs → ℕ → ℕ
  fuel_pairs no_pairs f = f
  fuel_pairs (pair_then key v ps) f = suc (fuel v (fuel_pairs ps f))

pub c_string-plain : (s : List ℕ) → All (λ c. (c == 0) ≡ false) s → c_string s ≡ s
unfolding c_string
c_string-plain [] h = refl
c_string-plain (c ∷ cs) h = rw (h.0, c_string-plain cs h.1) refl

-- The children that are there and those that are still to come.
unfoldable pub append : Nodes → Nodes → Nodes
append nil ms = ms
append (cons n ns) ms = cons n (append ns ms)

pub append-push :
    (ns : Nodes) (n : Node) (ms : Nodes) → append (push ns n) ms ≡ append ns (cons n ms)
unfolding append push
append-push nil n ms = refl
append-push (cons m ns) n ms = ap (cons m) (append-push ns n ms)

pub append_nil : (ns : Nodes) → append ns nil ≡ ns
unfolding append
append_nil nil = refl
append_nil (cons n ns) = ap (cons n) (append_nil ns)
