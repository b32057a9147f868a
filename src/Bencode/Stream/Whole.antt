-- ===== src/Bencode/Stream/Whole.antt =====
-- `FromStream` and `ToStream` of BenNode.cpp on a whole stream, and the rounds that the loop makes.
use benliud.Common.{
  append-nil, true, ℕ, suc, ◌+◌, ◌-◌, ◌≤◌, ◌≡◌, refl, ap, ◌∙◌, sym, List, [], ◌∷◌, ◌++◌, length,
  length-append, arith,
}
use benliud.Common.Int.{pos}
use benliud.Bencode.{
  new, be_null, text_node, add_text, add_text_here, act_here, passes_on, node, empty, nil, nothing,
  act, int_node,
}
use benliud.Bencode.Stream.{
  show_nat, show_text, encode, encode_all, clean, read_loop, from_stream, to_stream,
}
use benliud.Bencode.Stream.Spine.{pair, list_of, dict_of}
use benliud.Bencode.Stream.Values.{
  Value, Values, Pairs, int, text, list, dict, no_values, value_then, no_pairs, pair_then, build,
  build_all, build_pairs, HasPlainKeys, PairsHavePlainKeys, fuel, fuel_all, fuel_pairs,
}
use benliud.Bencode.Stream.RoundTrip.{value-root, dict-root, read_loop_end}
use benliud.Bencode.Stream.Rounds.{read_text-round}

-- Fuel adds up.
mutual
  unfolding fuel

  fuel_add : (v : Value) (f : ℕ) → fuel v f ≡ fuel v 0 + f
  fuel_add (int z) f = omega arith
  fuel_add (text s) f = omega arith
  fuel_add (list vs) f = omega (arith, fuel_all_add vs (suc f), fuel_all_add vs 1)
  fuel_add (dict ps) f = omega (arith, fuel_pairs_add ps (suc f), fuel_pairs_add ps 1)

  fuel_all_add : (vs : Values) (f : ℕ) → fuel_all vs f ≡ fuel_all vs 0 + f
  fuel_all_add no_values f = omega arith
  fuel_all_add (value_then v vs) f =
      omega (arith, fuel_add v (fuel_all vs f), fuel_add v (fuel_all vs 0), fuel_all_add vs f)

  fuel_pairs_add : (ps : Pairs) (f : ℕ) → fuel_pairs ps f ≡ fuel_pairs ps 0 + f
  fuel_pairs_add no_pairs f = omega arith
  fuel_pairs_add (pair_then key v ps) f =
      omega (arith, fuel_add v (fuel_pairs ps f), fuel_add v (fuel_pairs ps 0), fuel_pairs_add ps f)

length-show_text : (s : List ℕ) → 1 ≤ length (show_text s)
unfolding show_text
length-show_text s = omega (arith, length-append (show_nat (length s)) (58 ∷ s))

-- Each round takes a character at least.
mutual
  unfolding fuel build encode int_node text_node list_of dict_of pair

  fuel-le-length : (v : Value) → fuel v 0 ≤ length (encode (build v))
  fuel-le-length (int z) = omega arith
  fuel-le-length (text s) = length-show_text s
  fuel-le-length (list vs) = omega (
    arith,
    fuel_all_add vs 1,
    fuel_all-le-length vs,
    length-append (encode_all (build_all vs)) (101 ∷ []),
  )
  fuel-le-length (dict ps) = omega (
    arith,
    fuel_pairs_add ps 1,
    fuel_pairs-le-length ps,
    length-append (encode_all (build_pairs ps)) (101 ∷ []),
  )

  fuel_all-le-length : (vs : Values) → fuel_all vs 0 ≤ length (encode_all (build_all vs))
  fuel_all-le-length no_values = omega arith
  fuel_all-le-length (value_then v vs) = omega (
    arith,
    fuel_add v (fuel_all vs 0),
    fuel-le-length v,
    fuel_all-le-length vs,
    length-append (encode (build v)) (encode_all (build_all vs)),
  )

  fuel_pairs-le-length : (ps : Pairs) → fuel_pairs ps 0 ≤ length (encode_all (build_pairs ps))
  fuel_pairs-le-length no_pairs = omega arith
  fuel_pairs-le-length (pair_then key v ps) = omega (
    arith,
    fuel_add v (fuel_pairs ps 0),
    fuel-le-length v,
    fuel_pairs-le-length ps,
    length-show_text key,
    length-append (show_text key ++ encode (build v)) (encode_all (build_pairs ps)),
    length-append (show_text key) (encode (build v)),
  )

-- The fuel of `from_stream` is one for each character, which is enough.
enough_fuel :
    (v : Value) (rest : List ℕ) → (f : ℕ) × (length (to_stream (build v) ++ rest) ≡ fuel v f)
unfolding to_stream
enough_fuel v rest = (
  length (encode (build v) ++ rest) - fuel v 0,
  omega (
    arith,
    fuel_add v (length (encode (build v) ++ rest) - fuel v 0),
    length-append (encode (build v)) rest,
    fuel-le-length v,
  ),
)

-- `FromStream` on a new node reads what `ToStream` writes for the tree of any value whose dictionary
-- keys hold no zero byte: it answers 0 and leaves exactly that tree, with no node open.
pub from_stream-to_stream :
    (v : Value)
    → HasPlainKeys v
    → from_stream (new be_null) (to_stream (build v)) ≡ (build v, pos 0)
unfolding from_stream clean new
from_stream-to_stream v h =
    let (f, e) = enough_fuel v [] in
    ap (λ n. read_loop n (new be_null) [] (to_stream (build v)))
      (ap {A = List ℕ} length (sym (append-nil (to_stream (build v)))) ∙ e)
    ∙ value-root v f h

-- Whatever follows the outermost dictionary of a stream is left unread: `FromStream` on a new node
-- answers 0 and leaves the tree of that dictionary, if its keys, and those of the dictionaries in
-- it, hold no zero byte.
from_stream-trailing :
    (ps : Pairs) (rest : List ℕ)
    → PairsHavePlainKeys ps
    → from_stream (new be_null) (to_stream (build (dict ps)) ++ rest) ≡ (build (dict ps), pos 0)
unfolding from_stream clean new
from_stream-trailing ps rest h =
    let (f, e) = enough_fuel (dict ps) rest in
    ap (λ n. read_loop n (new be_null) [] (to_stream (build (dict ps)) ++ rest)) e
    ∙ dict-root ps f rest h

add_text_used :
    (s t : List ℕ)
    → act (add_text t) (node be_null (pos 0) [] s empty nil nothing) ≡ (text_node (s ++ t), true)
unfolding act act_here add_text_here passes_on text_node
add_text_used s t = refl

-- `FromStream` on a node that holds a string appends the string that it reads to the old one, since
-- `Clean` does not empty `m_sValue`.
pub from_stream_reused :
    (s t : List ℕ)
    → from_stream (text_node s) (to_stream (text_node t)) ≡ (text_node (s ++ t), pos 0)
unfolding from_stream clean to_stream encode text_node build fuel
from_stream_reused s t =
    let (f, e) = enough_fuel (text t) [] in
    let used = node be_null (pos 0) [] s empty nil nothing in
    ap (λ n. read_loop n used [] (show_text t))
      (ap {A = List ℕ} length (sym (append-nil (show_text t))) ∙ e)
    ∙ ap (read_loop (suc f) used []) (sym (append-nil (show_text t)))
    ∙ read_text-round f used (text_node (s ++ t)) [] t [] (add_text_used s t)
    ∙ read_loop_end f (text_node (s ++ t))
