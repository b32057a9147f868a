-- ===== src/Piece/Tests.antt =====
-- The functions of BTPiece.cpp at concrete inputs, and its theorems where their hypotheses hold.
use benliud.Common.{◌≤◌, ◌≡◌, refl, subst, true, false, arith, [], ◌∷◌}
use benliud.Common.Bytes.{all_below}
use benliud.Piece.{
  BtPiece, init, init_stream, is_set, set, is_empty, get_seted_count, set_all, minus, ge, test_bit,
  write_bit, cells, sum_bits, fill_bytes, set_range, count_below,
}
use benliud.Piece.Laws.{IsValid}
use benliud.Piece.Count.{IsClean, get_seted_count_lem, init-IsClean, set-IsClean}
use benliud.Piece.Laws.{init-IsValid, set-IsValid}

-- Ten pieces, of which the peer has number 1 and number 9.
abbrev two_of_ten : BtPiece
two_of_ten = record { size = 10; bytes = 0x40 ∷ 0x40 ∷ [] }

abbrev all_of_ten : BtPiece
all_of_ten = record { size = 10; bytes = 0xff ∷ 0xc0 ∷ [] }

two_of_ten_built : set (set (init 10) 1 true) 9 true ≡ two_of_ten
unfolding init set write_bit cells
two_of_ten_built = refl

stream_of_wrong_length : init_stream (1 ∷ []) 10 ≡ init 10
unfolding init_stream cells
stream_of_wrong_length = refl

counts :
    (get_seted_count two_of_ten ≡ 2)
    × (minus all_of_ten two_of_ten ≡ 8)
    × (is_empty two_of_ten ≡ false)
unfolding get_seted_count sum_bits minus is_empty count_below is_set test_bit all_below
counts = (refl, refl, refl)

filled_up : set_all (init 10) ≡ all_of_ten
unfolding set_all init fill_bytes set_range set write_bit cells
filled_up = refl

two_of_ten-IsValid : IsValid two_of_ten
unfolding cells
two_of_ten-IsValid = record { sized = refl; in_range = omega arith }

all_of_ten-IsValid : IsValid all_of_ten
unfolding cells
all_of_ten-IsValid = record { sized = refl; in_range = omega arith }

two_of_ten-IsClean : IsClean two_of_ten
two_of_ten-IsClean = subst IsClean two_of_ten_built (
    set-IsClean (set (init 10) 1 true) 9 true (set-IsValid (init 10) 1 true (init-IsValid 10))
      (set-IsClean (init 10) 1 true (init-IsValid 10) (init-IsClean 10)))

get_seted_count_lem_example :
    (get_seted_count two_of_ten ≡ count_below two_of_ten.size (is_set two_of_ten))
    × (get_seted_count two_of_ten ≤ two_of_ten.size)
get_seted_count_lem_example =
    get_seted_count_lem two_of_ten two_of_ten-IsValid two_of_ten-IsClean (omega arith)

-- `operator>=` is no test for a superset: other bits of the same byte count as well.
ge_by_count :
    ge (record { size = 8; bytes = 0x80 ∷ [] }) (record { size = 8; bytes = 0x01 ∷ [] }) ≡ true
unfolding ge all_below
ge_by_count = refl
