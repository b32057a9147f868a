-- ===== src/Dht/Node/RandomKey.antt =====
-- `GetRandomKeyInBucket` of benliud_btkad/src/DHTNode.cpp counts the buckets from the highest bit,
-- `FindBucket` from the lowest.
use benliud.Common.{
  ℕ, zero, suc, ◌+◌, ◌-◌, ◌*◌, ◌/◌, ◌%◌, ◌<◌, ◌≡◌, refl, ap, ◌∙◌, arith, List, [], ◌∷◌, length, All,
  bit_xor,
}
use benliud.Dht.Key.{Key, IsKey, minus, random}
use benliud.Dht.Node.Bits.{xor_self, differ_lem, first_differ}
use benliud.Dht.Node.Distance.{bucket_from-some, bucket_from-zero}
use benliud.Dht.Node.{DhtNode, find_bucket, bucket_from, differ, random_bytes, random_key_in_bucket}

bucket_from-random_bytes :
    (nb bit i : ℕ) (my : Key) (ds : List ℕ)
    → nb < length my
    → length my ≡ length ds
    → bit < 8
    → All (λ b. b < 256) my
    → All (λ b. b < 256) ds
    → bucket_from i (minus (random_bytes nb bit my ds) my) ≡ (19 - (i + nb)) * 8 + (7 - bit)
unfolding random_bytes minus
bucket_from-random_bytes nb bit i [] ds h n hb p q = absurd (omega arith)
bucket_from-random_bytes nb bit i (x ∷ xs) [] h n hb p q = absurd (omega arith)
bucket_from-random_bytes zero bit i (ob ∷ obs) (d ∷ ds) h n hb p q =
    let (range, same, ne) = differ_lem bit ob d hb p.0 q.0 in
    let (e, nz) = first_differ bit (differ bit ob d) ob hb range p.0 same ne in
    bucket_from-some i (bit_xor (differ bit ob d) ob) bit (minus ds obs) nz e ∙ omega arith
bucket_from-random_bytes (suc nb) bit i (ob ∷ obs) (d ∷ ds) h n hb p q =
    bucket_from-zero i (bit_xor ob ob) (minus (random_bytes nb bit obs ds) obs) (xor_self ob p.0)
    ∙ bucket_from-random_bytes nb bit (i + 1) obs ds (omega arith) (omega arith) hb p.1 q.1
    ∙ omega arith

random_lem : (ns : List ℕ) → (length (random ns) ≡ length ns) × All (λ b. b < 256) (random ns)
unfolding random
random_lem [] = (refl, tt)
random_lem (n ∷ ns) = (ap suc (random_lem ns).0, (omega arith, (random_lem ns).1))

-- `RefreshBucket` looks for nodes of bucket `b` near a key that stands in another bucket: whatever 20
-- numbers `rand` gives, the bucket of `GetRandomKeyInBucket(b)` is 159 - b, for a key of this node of
-- 20 bytes.
pub find_bucket-random_key_in_bucket :
    (node : DhtNode) (b : ℕ) (rand : List ℕ)
    → b < 160
    → IsKey node.my_id
    → length rand ≡ 20
    → find_bucket node (random_key_in_bucket b node.my_id rand) ≡ 159 - b
unfolding find_bucket random_key_in_bucket
find_bucket-random_key_in_bucket node b rand h k n =
    bucket_from-random_bytes (b / 8) (b % 8) 0 node.my_id (random rand) (omega (arith, k.sized))
      (omega (arith, k.sized, (random_lem rand).0, n)) (omega arith) k.in_range (random_lem rand).1
    ∙ omega arith
