-- ===== src/Dht/Node/Distance.antt =====
-- `FindBucket` of benliud_btkad/src/DHTNode.cpp: the bucket of a key is the place of the highest bit
-- of its distance.
use benliud.Common.{
  ℕ, ◌+◌, ◌-◌, ◌*◌, ◌^◌, ◌<◌, ◌≤◌, ◌≡◌, ◌⊎◌, refl, ◌∙◌, sym, true, false, ◌&&◌, Bool, arith, [],
  ◌∷◌, Option, none, some, length, All, ltb, leb, ◌==◌, Option-cases, inl, inr, subst, &&-eq-true,
  leb→le, ltb→lt, ==_iff,
}
use native.Mathlib.Nat.{mul_comm, mul_assoc, mul-le-mul_left, one-le-pow, add-mul}
use benliud.Common.Bytes.{all_below, all_below_sound}
use benliud.Dht.Key.{Key, IsKey, minus}
use benliud.Dht.Key.Distance.{minus-IsKey}
use benliud.Dht.Key.Value.{key_value, succ_le, key_value-lt, bytes_pow, same_key}
use benliud.Dht.Node.{DhtNode, find_bucket, bucket_from, first_bit}

row_ok : ℕ → Option ℕ → Bool
row_ok b none = b == 0
row_ok b (some j) = leb j 7 && (leb (2 ^ (7 - j)) b && ltb b (2 ^ (7 - j) * 2))

first_bit_table : all_below 256 (λ b. row_ok b (first_bit b 0 8)) ≡ true
unfolding all_below row_ok first_bit
first_bit_table = refl

-- The place of the highest bit of a byte that is not 0.
first_bit_lem :
    (b : ℕ)
    → b < 256
    → ((b ≡ 0) × (first_bit b 0 8 ≡ none))
      ⊎ ((j : ℕ) × (first_bit b 0 8 ≡ some j) × (j ≤ 7) × (2 ^ (7 - j) ≤ b) × (b < 2 ^ (7 - j) * 2))
unfolding row_ok
first_bit_lem b h =
    let row = all_below_sound 256 (λ b. row_ok b (first_bit b 0 8)) b first_bit_table h in
    elim (Option-cases (first_bit b 0 8)) [
      | inl e ↦ inl ((==_iff b 0).0 (subst (λ o. row_ok b o ≡ true) e row), e)
      | inr (j, e) ↦
          let found = (&&-eq-true _ _).0 (subst (λ o. row_ok b o ≡ true) e row) in
          let range = (&&-eq-true _ _).0 found.1 in
          inr (j, e, leb→le _ _ found.0, leb→le _ _ range.0, ltb→lt _ _ range.1)
    ]

-- The place of the highest bit of a number of bytes: 2 to the place is at most the number, and twice
-- that is more.
record IsPlace (place : ℕ) (k : Key) : Type 0 where
  below : place < 8 * length k
  at_least : 2 ^ place ≤ key_value k
  less : key_value k < 2 ^ place * 2

IsPlace-of_byte :
    (b j : ℕ) (bs : Key)
    → All (λ b. b < 256) bs
    → j ≤ 7
    → 2 ^ (7 - j) ≤ b
    → b < 2 ^ (7 - j) * 2
    → IsPlace (length bs * 8 + (7 - j)) (b ∷ bs)
unfolding key_value
IsPlace-of_byte b j bs h hj lo hi =
    let weight = 256 ^ length bs in
    let split = bytes_pow (length bs) (7 - j) in
    record {
      below = omega arith;
      at_least = omega (arith, split, mul-le-mul_left weight lo, mul_comm b weight);
      less = omega (
        arith,
        split,
        key_value-lt bs h,
        mul-le-mul_left weight (succ_le b (2 ^ (7 - j) * 2) hi),
        mul_comm (b + 1) weight,
        add-mul b 1 weight,
        mul_assoc weight (2 ^ (7 - j)) 2,
      );
    }

key_value_zero : (b : ℕ) (bs : Key) → b ≡ 0 → key_value (b ∷ bs) ≡ key_value bs
unfolding key_value
key_value_zero b bs z = rw z (omega arith)

pub bucket_from-zero :
    (i b : ℕ) (bs : Key) → b ≡ 0 → bucket_from i (b ∷ bs) ≡ bucket_from (i + 1) bs
unfolding bucket_from
bucket_from-zero i b bs z = rw z refl

pub bucket_from-some :
    (i b j : ℕ) (bs : Key)
    → (b == 0) ≡ false
    → first_bit b 0 8 ≡ some j
    → bucket_from i (b ∷ bs) ≡ (19 - i) * 8 + (7 - j)
unfolding bucket_from
bucket_from-some i b j bs n e = rw (n, e) refl

IsPlace-zero : (place b : ℕ) (bs : Key) → b ≡ 0 → IsPlace place bs → IsPlace place (b ∷ bs)
IsPlace-zero place b bs z p = record {
  below = omega (arith, p.below);
  at_least = omega (arith, p.at_least, key_value_zero b bs z);
  less = omega (arith, p.less, key_value_zero b bs z);
}

not_zero : (b n : ℕ) → 2 ^ n ≤ b → (b == 0) ≡ false
not_zero b n h = ground (arith, one-le-pow n 2 (omega arith))

bucket_from_lem :
    (i : ℕ) (k : Key)
    → i + length k ≡ 20
    → All (λ b. b < 256) k
    → ((key_value k ≡ 0) × (bucket_from i k ≡ 0xFF)) ⊎ IsPlace (bucket_from i k) k
bucket_from_lem i [] n h = inl (unfold key_value in refl, unfold bucket_from in refl)
bucket_from_lem i (b ∷ bs) n h = elim (first_bit_lem b h.0) [
  | inl (z, _) ↦
      rw (bucket_from-zero i b bs z) (elim (bucket_from_lem (i + 1) bs (omega arith) h.1) [
        | inl (v, e) ↦ inl (key_value_zero b bs z ∙ v, e)
        | inr p ↦ inr (IsPlace-zero (bucket_from (i + 1) bs) b bs z p)
      ])
  | inr (j, e, hj, lo, hi) ↦ rw (bucket_from-some i b j bs (not_zero b (7 - j) lo) e) (
      inr (
        subst (λ m. IsPlace (m * 8 + (7 - j)) (b ∷ bs)) (omega arith)
          (IsPlace-of_byte b j bs h.1 hj lo hi)))
]

-- `FindBucket` gives a key other than this node's own the place of the highest bit of its distance,
-- as the comment on it says: the distance is at least 2 to the place and less than twice that. For
-- the node's own key it gives 255, which `Update` and the others pass by.
pub find_bucket_lem :
    (node : DhtNode) (id : Key)
    → IsKey id
    → IsKey node.my_id
    → ((id ≡ node.my_id) × (find_bucket node id ≡ 0xFF))
      ⊎ ((find_bucket node id < 160)
          × (2 ^ find_bucket node id ≤ key_value (minus id node.my_id))
          × (key_value (minus id node.my_id) < 2 ^ find_bucket node id * 2))
unfolding find_bucket
find_bucket_lem node id p q =
    let d = minus-IsKey id node.my_id p q in
    elim (bucket_from_lem 0 (minus id node.my_id) (omega (arith, d.sized)) d.in_range) [
      | inl (z, e) ↦ inl (same_key id node.my_id (p.sized ∙ sym q.sized) p.in_range q.in_range z, e)
      | inr place ↦ inr (omega (arith, place.below, d.sized), place.at_least, place.less)
    ]
