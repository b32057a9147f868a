-- ===== src/Dht/Key/Distance.antt =====
-- `operator-` of BTDHTKey.cpp is a metric's kernel: symmetric, and zero for equal keys only.
use benliud.Common.{◌<◌, ◌≡◌, refl, ap, ap₂, sym, ◌∙◌, arith, [], ◌∷◌, length, All}
use benliud.Common.Bytes.{xor_row}
use benliud.Dht.Key.{Key, IsKey, minus}

abbrev IsBytes : Key → Type 0
IsBytes = All (λ b. b < 256)

minus_cancel : (a b : Key) → length a ≡ length b → IsBytes a → IsBytes b → minus a (minus a b) ≡ b
unfolding minus
minus_cancel [] [] h p q = refl
minus_cancel [] (y ∷ ys) h p q = absurd (omega arith)
minus_cancel (x ∷ xs) [] h p q = absurd (omega arith)
minus_cancel (x ∷ xs) (y ∷ ys) h p q =
    ap₂ ◌∷◌ (xor_row x y p.0 q.0).0 (minus_cancel xs ys (omega arith) p.1 q.1)

minus_comm : (a b : Key) → IsBytes a → IsBytes b → minus a b ≡ minus b a
unfolding minus
minus_comm [] [] p q = refl
minus_comm [] (y ∷ ys) p q = refl
minus_comm (x ∷ xs) [] p q = refl
minus_comm (x ∷ xs) (y ∷ ys) p q = ap₂ ◌∷◌ (xor_row x y p.0 q.0).1 (minus_comm xs ys p.1 q.1)

length-minus : (a b : Key) → length a ≡ length b → length (minus a b) ≡ length b
unfolding minus
length-minus [] [] h = refl
length-minus [] (y ∷ ys) h = absurd (omega arith)
length-minus (x ∷ xs) [] h = absurd (omega arith)
length-minus (x ∷ xs) (y ∷ ys) h = omega (arith, length-minus xs ys)

minus-IsBytes : (a b : Key) → IsBytes a → IsBytes b → IsBytes (minus a b)
unfolding minus
minus-IsBytes [] [] p q = tt
minus-IsBytes [] (y ∷ ys) p q = tt
minus-IsBytes (x ∷ xs) [] p q = tt
minus-IsBytes (x ∷ xs) (y ∷ ys) p q = ((xor_row x y p.0 q.0).2, minus-IsBytes xs ys p.1 q.1)

-- The distance of two keys is a key again.
pub minus-IsKey : (a b : Key) → IsKey a → IsKey b → IsKey (minus a b)
minus-IsKey a b p q = record {
  sized = length-minus a b (p.sized ∙ sym q.sized) ∙ q.sized;
  in_range = minus-IsBytes a b p.in_range q.in_range;
}

-- Two keys at the same distance from a third are equal: in a store that is ordered by distance no
-- two keys share a place.
pub minus_injective : (a b c : Key) → IsKey a → IsKey b → IsKey c → minus a b ≡ minus a c → b ≡ c
minus_injective a b c p q r e =
    sym (minus_cancel a b (p.sized ∙ sym q.sized) p.in_range q.in_range)
    ∙ ap (minus a) e
    ∙ minus_cancel a c (p.sized ∙ sym r.sized) p.in_range r.in_range

-- The distance of two keys is a key again, it is symmetric, and taking it twice from one key leads
-- back to the other.
distance_lem :
    (a b : Key)
    → IsKey a
    → IsKey b
    → (minus a b ≡ minus b a) × (minus a (minus a b) ≡ b) × IsKey (minus a b)
distance_lem a b p q = (
  minus_comm a b p.in_range q.in_range,
  minus_cancel a b (p.sized ∙ sym q.sized) p.in_range q.in_range,
  minus-IsKey a b p q,
)
