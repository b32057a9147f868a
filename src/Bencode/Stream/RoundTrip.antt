-- ===== src/Bencode/Stream/RoundTrip.antt =====
-- `FromStream` of BenNode.cpp reads what `ToStream` writes.
use benliud.Common.{
  ℕ, zero, suc, ◌≡◌, refl, ap, ◌∙◌, sym, true, false, List, [], ◌∷◌, ◌++◌, append_assoc, append-nil,
}
use benliud.Common.Int.{ℤ, pos}
use benliud.Bencode.{
  Node, Nodes, nil, full, push, new, be_null, nothing, int_node, text_node, back_waits,
  open_dictionary, open_list, close_dictionary, close_list, add_int, add_text, closes,
}
use benliud.Bencode.Stream.{
  show_int, show_text, result, encode, encode_all, encode_slot, read_loop, to_stream,
}
use benliud.Bencode.Stream.Spine.{
  pair, list_of, dict_of, Frame, list_frame, dict_frame, hole, fill, plug, act-plug, act-plug_close,
  open_dictionary-hole, open_list-hole, add_int-hole, add_text-hole, add_key, back_waits-push-full,
  close_list-open, close_dictionary-open, open_dictionary-new, open_list-new, add_int-new,
  add_text-new,
}
use benliud.Bencode.Stream.Rounds.{
  read_int-round, read_text-round, open_dictionary-round, open_list-round, close_list-round,
  close_dictionary-round, close_dictionary-root,
}
use benliud.Bencode.Stream.Values.{
  Value, Values, Pairs, int, text, list, dict, no_values, value_then, no_pairs, pair_then, build,
  build_all, build_pairs, HasPlainKeys, HavePlainKeys, PairsHavePlainKeys, fuel, fuel_all,
  fuel_pairs, c_string-plain, append, append-push, append_nil,
}

-- Anywhere in an open list or dictionary, a value is read off the front of the stream and put
-- into its place.
ReadsValue : Value → Type 0
ReadsValue v =
    (fr : Frame) (fs : List Frame) (x : ℕ) (queue : List ℕ) (f : ℕ) (rest : List ℕ)
    → HasPlainKeys v
    → read_loop (fuel v f) (plug fs (hole fr)) (x ∷ queue) (encode (build v) ++ rest)
      ≡ read_loop f (plug fs (fill fr (build v))) (x ∷ queue) rest

ReadsValues : Values → Type 0
ReadsValues vs =
    (cs : Nodes) (fs : List Frame) (x : ℕ) (queue : List ℕ) (f : ℕ) (rest : List ℕ)
    → HavePlainKeys vs
    → read_loop (fuel_all vs f) (plug fs (list_of cs nothing)) (x ∷ queue)
        (encode_all (build_all vs) ++ rest)
      ≡ read_loop f (plug fs (list_of (append cs (build_all vs)) nothing)) (x ∷ queue) rest

ReadsPairs : Pairs → Type 0
ReadsPairs ps =
    (cs : Nodes) (fs : List Frame) (x : ℕ) (queue : List ℕ) (f : ℕ) (rest : List ℕ)
    → back_waits cs ≡ false
    → PairsHavePlainKeys ps
    → read_loop (fuel_pairs ps f) (plug fs (dict_of cs nothing)) (x ∷ queue)
        (encode_all (build_pairs ps) ++ rest)
      ≡ read_loop f (plug fs (dict_of (append cs (build_pairs ps)) nothing)) (x ∷ queue) rest

int-ReadsValue : (z : ℤ) → ReadsValue (int z)
unfolding ReadsValue fuel build encode int_node closes
int-ReadsValue z fr fs x queue f rest h =
    ap (λ s. read_loop (suc f) (plug fs (hole fr)) (x ∷ queue) (105 ∷ s))
      (append_assoc (show_int z) (101 ∷ []) rest)
    ∙ read_int-round f _ _ (x ∷ queue) z rest
        (act-plug (add_int z) fs (hole fr) (fill fr (int_node z)) true (add_int-hole z fr) refl)

text-ReadsValue : (s : List ℕ) → ReadsValue (text s)
unfolding ReadsValue fuel build encode text_node closes
text-ReadsValue s fr fs x queue f rest h =
    read_text-round f _ _ (x ∷ queue) s rest
      (act-plug (add_text s) fs (hole fr) (fill fr (text_node s)) true (add_text-hole s fr) refl)

list-ReadsValue : (vs : Values) → ReadsValues vs → ReadsValue (list vs)
unfolding ReadsValue fuel build encode list_of ReadsValues HasPlainKeys closes append plug
list-ReadsValue vs ih fr fs x queue f rest h =
    let inner = build_all vs in
    ap (λ s. read_loop (suc (fuel_all vs (suc f))) (plug fs (hole fr)) (x ∷ queue) (108 ∷ s))
      (append_assoc (encode_all inner) (101 ∷ []) rest)
    ∙ open_list-round _ _ _ (x ∷ queue) _
        (act-plug open_list fs (hole fr) _ true (open_list-hole fr) refl)
    ∙ ih nil (fr ∷ fs) 1 (x ∷ queue) (suc f) (101 ∷ rest) h
    ∙ close_list-round f _ _ (x ∷ queue) rest (
        act-plug_close close_list fr fs (list_of inner nothing) (list_of inner nothing)
          (close_list-open inner) refl)

dict-ReadsValue : (ps : Pairs) → ReadsPairs ps → ReadsValue (dict ps)
unfolding ReadsValue fuel build encode dict_of ReadsPairs HasPlainKeys closes append plug back_waits
dict-ReadsValue ps ih fr fs x queue f rest h =
    let inner = build_pairs ps in
    ap (λ s. read_loop (suc (fuel_pairs ps (suc f))) (plug fs (hole fr)) (x ∷ queue) (100 ∷ s))
      (append_assoc (encode_all inner) (101 ∷ []) rest)
    ∙ open_dictionary-round _ _ _ (x ∷ queue) _
        (act-plug open_dictionary fs (hole fr) _ true (open_dictionary-hole fr) refl)
    ∙ ih nil (fr ∷ fs) 0 (x ∷ queue) (suc f) (101 ∷ rest) refl h
    ∙ close_dictionary-round f _ _ x queue rest (
        act-plug_close close_dictionary fr fs (dict_of inner nothing) (dict_of inner nothing)
          (close_dictionary-open inner) refl)

no_values-ReadsValues : ReadsValues no_values
unfolding ReadsValues fuel_all build_all encode_all
no_values-ReadsValues cs fs x queue f rest h = rw (append_nil cs) refl

value_then-ReadsValues :
    (v : Value) (vs : Values) → ReadsValue v → ReadsValues vs → ReadsValues (value_then v vs)
unfolding ReadsValues ReadsValue fuel_all build_all encode_all HavePlainKeys hole fill
value_then-ReadsValues v vs ihv ih cs fs x queue f rest h =
    ap (read_loop (fuel v (fuel_all vs f)) (plug fs (list_of cs nothing)) (x ∷ queue))
      (append_assoc (encode (build v)) (encode_all (build_all vs)) rest)
    ∙ ihv (list_frame cs) fs x queue (fuel_all vs f) (encode_all (build_all vs) ++ rest) h.0
    ∙ ih (push cs (build v)) fs x queue f rest h.1
    ∙ ap (λ ms. read_loop f (plug fs (list_of ms nothing)) (x ∷ queue) rest)
        (append-push cs (build v) (build_all vs))

no_pairs-ReadsPairs : ReadsPairs no_pairs
unfolding ReadsPairs fuel_pairs build_pairs encode_all
no_pairs-ReadsPairs cs fs x queue f rest w h = rw (append_nil cs) refl

pair_then-ReadsPairs :
    (key : List ℕ) (v : Value) (ps : Pairs)
    → ReadsValue v
    → ReadsPairs ps
    → ReadsPairs (pair_then key v ps)
unfolding ReadsPairs ReadsValue fuel_pairs build_pairs encode_all PairsHavePlainKeys hole fill
    encode encode_slot pair closes
pair_then-ReadsPairs key v ps ihv ih cs fs x queue f rest w h =
    let later = encode_all (build_pairs ps) in
    let entry = pair key (full (build v)) in
    ap (read_loop (suc (fuel v (fuel_pairs ps f))) (plug fs (dict_of cs nothing)) (x ∷ queue)) (
      append_assoc (show_text key ++ encode (build v)) later rest
      ∙ append_assoc (show_text key) (encode (build v)) (later ++ rest))
    ∙ read_text-round _ _ _ (x ∷ queue) key _ (
        act-plug (add_text key) fs (dict_of cs nothing) _ true
          (add_key key cs w (c_string-plain key h.0)) refl)
    ∙ ihv (dict_frame cs key) fs x queue (fuel_pairs ps f) (later ++ rest) h.1
    ∙ ih (push cs entry) fs x queue f rest (back_waits-push-full cs key (build v)) h.2
    ∙ ap (λ ms. read_loop f (plug fs (dict_of ms nothing)) (x ∷ queue) rest)
        (append-push cs entry (build_pairs ps))

mutual
  value-ReadsValue : (v : Value) → ReadsValue v
  value-ReadsValue (int z) = int-ReadsValue z
  value-ReadsValue (text s) = text-ReadsValue s
  value-ReadsValue (list vs) = list-ReadsValue vs (values-ReadsValues vs)
  value-ReadsValue (dict ps) = dict-ReadsValue ps (pairs-ReadsPairs ps)

  values-ReadsValues : (vs : Values) → ReadsValues vs
  values-ReadsValues no_values = no_values-ReadsValues
  values-ReadsValues (value_then v vs) =
      value_then-ReadsValues v vs (value-ReadsValue v) (values-ReadsValues vs)

  pairs-ReadsPairs : (ps : Pairs) → ReadsPairs ps
  pairs-ReadsPairs no_pairs = no_pairs-ReadsPairs
  pairs-ReadsPairs (pair_then key v ps) =
      pair_then-ReadsPairs key v ps (value-ReadsValue v) (pairs-ReadsPairs ps)

pub read_loop_end : (f : ℕ) (root : Node) → read_loop f root [] [] ≡ (root, pos 0)
unfolding read_loop result
read_loop_end zero root = refl
read_loop_end (suc f) root = refl

pub dict-root :
    (ps : Pairs) (f : ℕ) (rest : List ℕ)
    → PairsHavePlainKeys ps
    → read_loop (fuel (dict ps) f) (new be_null) [] (to_stream (build (dict ps)) ++ rest)
      ≡ (build (dict ps), pos 0)
unfolding ReadsPairs ReadsValues fuel to_stream build encode dict_of append back_waits plug
dict-root ps f rest h =
    let inner = build_pairs ps in
    ap (λ s. read_loop (suc (fuel_pairs ps (suc f))) (new be_null) [] (100 ∷ s))
      (append_assoc (encode_all inner) (101 ∷ []) rest)
    ∙ open_dictionary-round _ (new be_null) (dict_of nil nothing) [] _ open_dictionary-new
    ∙ pairs-ReadsPairs ps nil [] 0 [] (suc f) (101 ∷ rest) refl h
    ∙ close_dictionary-root f inner rest

pub value-root :
    (v : Value) (f : ℕ)
    → HasPlainKeys v
    → read_loop (fuel v f) (new be_null) [] (to_stream (build v)) ≡ (build v, pos 0)
unfolding ReadsPairs ReadsValues fuel to_stream build encode list_of append plug HasPlainKeys
    int_node text_node
value-root (int z) f h =
    read_int-round f (new be_null) (int_node z) [] z [] (add_int-new z)
    ∙ read_loop_end f (int_node z)
value-root (text s) f h =
    ap (read_loop (suc f) (new be_null) []) (sym (append-nil (show_text s)))
    ∙ read_text-round f (new be_null) (text_node s) [] s [] (add_text-new s)
    ∙ read_loop_end f (text_node s)
value-root (list vs) f h =
    let inner = build_all vs in
    open_list-round _ (new be_null) (list_of nil nothing) [] _ open_list-new
    ∙ values-ReadsValues vs nil [] 1 [] (suc f) (101 ∷ []) h
    ∙ close_list-round f _ (list_of inner nothing) [] [] (ap (λ r. r.0) (close_list-open inner))
    ∙ read_loop_end f (list_of inner nothing)
value-root (dict ps) f h =
    ap (read_loop (fuel (dict ps) f) (new be_null) [])
      (sym (append-nil (to_stream (build (dict ps)))))
    ∙ dict-root ps f [] h
