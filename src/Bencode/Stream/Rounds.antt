-- ===== src/Bencode/Stream/Rounds.antt =====
-- One round of `FromStream` of BenNode.cpp on what `EncodeToStream` writes for an integer, a string,
-- or the ends of a list or a dictionary.
use benliud.Common.{
  ℕ, suc, ◌≡◌, refl, ap, ◌∙◌, sym, true, false, List, [], ◌∷◌, ◌++◌, length, take_append,
  drop_append, append_assoc, arith, ◌==◌,
}
use benliud.Common.Int.{ℤ, pos}
use benliud.Bencode.Stream.Spine.{dict_of, close_dictionary-open}
use benliud.Bencode.{
  Node, Nodes, nothing, open_dictionary, open_list, close_dictionary, close_list, add_int, add_text,
  act,
}
use benliud.Bencode.Stream.{
  result, show_nat, show_int, show_text, is_digit, span_digits, round, goes_on, read_int, read_text,
  read_close, read_loop,
}
use benliud.Bencode.Stream.Decimal.{
  StartsWithDigit, show_nat-StartsWithDigit, all_digits-show_nat, span_digits-append, atoi-show_nat,
  to_end-show_int, atoi64-show_int,
}

read_loop-goes_on :
    (f : ℕ) (root next : Node) (queue queue' : List ℕ) (c : ℕ) (cs rest : List ℕ)
    → round root queue c cs ≡ goes_on next queue' rest
    → read_loop (suc f) root queue (c ∷ cs) ≡ read_loop f next queue' rest
unfolding read_loop
read_loop-goes_on f root next queue queue' c cs rest h = rw (h, read_loop) refl

read_int_lem :
    (root next : Node) (queue : List ℕ) (z : ℤ) (rest : List ℕ)
    → act (add_int z) root ≡ (next, true)
    → read_int root queue (show_int z, 101 ∷ rest) ≡ goes_on next queue rest
unfolding read_int
read_int_lem root next queue z rest h = rw (atoi64-show_int z, h) refl

pub read_int-round :
    (f : ℕ) (root next : Node) (queue : List ℕ) (z : ℤ) (rest : List ℕ)
    → act (add_int z) root ≡ (next, true)
    → read_loop (suc f) root queue (105 ∷ (show_int z ++ 101 ∷ rest)) ≡ read_loop f next queue rest
unfolding round
read_int-round f root next queue z rest h =
    read_loop-goes_on f root next queue queue 105 (show_int z ++ 101 ∷ rest) rest
      (ap (read_int root queue) (to_end-show_int z rest) ∙ read_int_lem root next queue z rest h)

round_digit :
    (root : Node) (queue : List ℕ) (c : ℕ) (cs : List ℕ)
    → is_digit c ≡ true
    → round root queue c cs ≡ read_text root queue (span_digits (c ∷ cs))
unfolding round is_digit
round_digit root queue c cs h = ground arith

read_text_lem :
    (root next : Node) (queue s rest : List ℕ)
    → act (add_text s) root ≡ (next, true)
    → read_text root queue (show_nat (length s), 58 ∷ (s ++ rest)) ≡ goes_on next queue rest
unfolding read_text
read_text_lem root next queue s rest h =
    rw (atoi-show_nat (length s), take_append s rest, drop_append s rest, h) refl

pub read_text-round :
    (f : ℕ) (root next : Node) (queue s rest : List ℕ)
    → act (add_text s) root ≡ (next, true)
    → read_loop (suc f) root queue (show_text s ++ rest) ≡ read_loop f next queue rest
unfolding show_text StartsWithDigit
read_text-round f root next queue s rest h =
    let (d, ds, p, isd) = show_nat-StartsWithDigit (length s) in
    let whole =
      append_assoc (show_nat (length s)) (58 ∷ s) rest ∙ ap (λ t. t ++ 58 ∷ (s ++ rest)) p in
    ap (read_loop (suc f) root queue) whole
    ∙ read_loop-goes_on f root next queue queue d (ds ++ 58 ∷ (s ++ rest)) rest (
        round_digit root queue d (ds ++ 58 ∷ (s ++ rest)) isd
        ∙ ap (read_text root queue) (
            ap (λ t. span_digits (t ++ 58 ∷ (s ++ rest))) (sym p)
            ∙ span_digits-append (show_nat (length s)) 58 (s ++ rest)
                (all_digits-show_nat (length s)) (unfold is_digit in refl))
        ∙ read_text_lem root next queue s rest h)

pub open_dictionary-round :
    (f : ℕ) (root next : Node) (queue rest : List ℕ)
    → act open_dictionary root ≡ (next, true)
    → read_loop (suc f) root queue (100 ∷ rest) ≡ read_loop f next (0 ∷ queue) rest
unfolding read_loop round
open_dictionary-round f root next queue rest h = rw h refl

pub open_list-round :
    (f : ℕ) (root next : Node) (queue rest : List ℕ)
    → act open_list root ≡ (next, true)
    → read_loop (suc f) root queue (108 ∷ rest) ≡ read_loop f next (1 ∷ queue) rest
unfolding read_loop round
open_list-round f root next queue rest h = rw h refl

pub close_list-round :
    (f : ℕ) (root next : Node) (queue rest : List ℕ)
    → (act close_list root).0 ≡ next
    → read_loop (suc f) root (1 ∷ queue) (101 ∷ rest) ≡ read_loop f next queue rest
unfolding read_loop round read_close
close_list-round f root next queue rest h = rw h refl

length_cons_ne : (x : ℕ) (queue : List ℕ) → (suc (length queue) == 0) ≡ false
length_cons_ne x queue = ground arith

pub close_dictionary-round :
    (f : ℕ) (root next : Node) (x : ℕ) (queue rest : List ℕ)
    → (act close_dictionary root).0 ≡ next
    → read_loop (suc f) root (0 ∷ x ∷ queue) (101 ∷ rest) ≡ read_loop f next (x ∷ queue) rest
unfolding round read_close
close_dictionary-round f root next x queue rest h =
    read_loop-goes_on f root next (0 ∷ x ∷ queue) (x ∷ queue) 101 rest rest
      (rw (length_cons_ne x queue) (ap (λ n. goes_on n (x ∷ queue) rest) h))

-- The outermost dictionary ends the reading, whatever follows it.
pub close_dictionary-root :
    (f : ℕ) (cs : Nodes) (rest : List ℕ)
    → read_loop (suc f) (dict_of cs nothing) (0 ∷ []) (101 ∷ rest) ≡ (dict_of cs nothing, pos 0)
unfolding read_loop round read_close result
close_dictionary-root f cs rest = ap (λ r. (r.0, pos 0)) (close_dictionary-open cs)
