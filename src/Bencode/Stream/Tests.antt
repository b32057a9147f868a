-- ===== src/Bencode/Stream/Tests.antt =====
-- Runs of the functions of BenNode.cpp on small streams.
use benliud.Common.{◌≡◌, refl, [], ◌∷◌}
use benliud.Common.Int.{pos, negsuc}
use benliud.Bencode.{new, be_null, text_node, int_node, act, act_here, open_list_here, passes_on}
use benliud.Bencode.Stream.{
  from_stream, to_stream, encode, show_int, show_nat, show_text, decimal, round, read_int,
  read_close, read_text, read_loop, is_digit, span_digits, to_end, clean, result,
}
use benliud.Bencode.Stream.Spine.{dict_of, pair}
use benliud.Bencode.Lookup.{get_key_value, find_key_value, lookup, key_value_lem}
use benliud.Bencode.Stream.Values.{
  Pairs, int, text, list, dict, no_values, value_then, no_pairs, pair_then, build, HasPlainKeys,
  PairsHavePlainKeys,
}
use benliud.Bencode.Stream.Whole.{from_stream-to_stream, from_stream_reused}

-- { "a" : [-7, "xy", {}], "bc" : { "d" : 42 } }
abbrev entries : Pairs
entries =
    pair_then (97 ∷ [])
      (list (
        value_then (int (negsuc 6))
          (value_then (text (120 ∷ 121 ∷ [])) (value_then (dict no_pairs) no_values))))
      (pair_then (98 ∷ 99 ∷ []) (dict (pair_then (100 ∷ []) (int (pos 42)) no_pairs)) no_pairs)

entries-PairsHavePlainKeys : PairsHavePlainKeys entries
unfolding PairsHavePlainKeys
entries-PairsHavePlainKeys =
    ((refl, tt), (tt, (tt, (tt, tt))), ((refl, (refl, tt)), ((refl, tt), tt, tt), tt))

dict_entries-HasPlainKeys : HasPlainKeys (dict entries)
unfolding HasPlainKeys
dict_entries-HasPlainKeys = entries-PairsHavePlainKeys

from_stream-to_stream_example :
    from_stream (new be_null) (to_stream (build (dict entries))) ≡ (build (dict entries), pos 0)
from_stream-to_stream_example = from_stream-to_stream (dict entries) dict_entries-HasPlainKeys

from_stream_reused_example :
    from_stream (text_node (97 ∷ [])) (to_stream (text_node (98 ∷ [])))
    ≡ (text_node (97 ∷ 98 ∷ []), pos 0)
from_stream_reused_example = from_stream_reused (97 ∷ []) (98 ∷ [])

key_value_example :
    (get_key_value (98 ∷ 99 ∷ []) (build (dict entries)) ≡ lookup (98 ∷ 99 ∷ []) entries)
    × (find_key_value (98 ∷ 99 ∷ []) (build (dict entries)) ≡ lookup (98 ∷ 99 ∷ []) entries)
key_value_example =
    key_value_lem (98 ∷ 99 ∷ []) entries (refl, (refl, tt)) entries-PairsHavePlainKeys

-- "d1:ai5eei9e": the reading ends with the dictionary; "i5", "5:ab" without its colon, and "e".
stream_run :
    to_stream (build (dict (pair_then (97 ∷ []) (int (pos 5)) no_pairs)))
    ≡ 100 ∷ 49 ∷ 58 ∷ 97 ∷ 105 ∷ 53 ∷ 101 ∷ 101 ∷ []
unfolding from_stream to_stream new build encode show_int show_nat show_text decimal int_node
    dict_of pair round read_int read_close read_text read_loop is_digit span_digits to_end clean
    result act act_here open_list_here passes_on
stream_run = refl

errors_run :
    ((from_stream (new be_null) (105 ∷ 53 ∷ [])).1 ≡ negsuc 3)
    × ((from_stream (new be_null) (101 ∷ [])).1 ≡ negsuc 4)
    × ((from_stream (new be_null) (53 ∷ 97 ∷ [])).1 ≡ negsuc 5)
    × ((from_stream (new be_null) (108 ∷ [])).1 ≡ negsuc 5)
unfolding from_stream to_stream new build encode show_int show_nat show_text decimal int_node
    dict_of pair round read_int read_close read_text read_loop is_digit span_digits to_end clean
    result act act_here open_list_here passes_on
errors_run = (refl, refl, refl, refl)
