-- ===== src/Dht/Node/Tests.antt =====
-- DHTNode.cpp at concrete inputs, and its theorems where their hypotheses hold.
use benliud.Common.{ℕ, ◌*◌, ◌^◌, ◌≤◌, ◌<◌, ◌≡◌, ◌⊎◌, refl, arith, [], ◌∷◌, none, All, replicate}
use benliud.Common.Search.{find_first}
use benliud.Dht.Key.{Key, IsKey, eq, minus, random}
use benliud.Dht.Key.Value.{key_value}
use benliud.Dht.Entry.{KBucketEntry, InetAddr}
use benliud.Dht.Bucket.{KBucket}
use benliud.Dht.Bucket.Keys.{Absent}
use benliud.Dht.Store
use benliud.Dht.Store.Outcome.{IsValid, Settled}
use benliud.Dht.Node.{
  DhtNode, new, find_bucket, bucket_from, first_bit, random_key_in_bucket, random_bytes, differ,
  copy_bits, put_bucket, closest_nodes,
}
use benliud.Dht.Node.Distance.{find_bucket_lem}
use benliud.Dht.Node.RandomKey.{find_bucket-random_key_in_bucket}
use benliud.Dht.Node.Table.{Stands, IsTable, put_bucket-IsTable, new-IsTable}
use benliud.Dht.Node.Calls.{
  updates, fails, limits, refreshes, asks_slot, run, run-IsTable, all_entries, EachDistinct,
  closest_nodes_lem,
}
use benliud.Dht.Node.Records.{do_announce_job, good_announce_peers_response}
use benliud.Dht.Node.Announce.{do_announce_job-answered}

abbrev key : ℕ → Key
key n = n ∷ replicate 19 0

key-IsKey : (n : ℕ) → n < 256 → IsKey (key n)
key-IsKey n h = record { sized = refl; in_range = (h, omega arith) }

abbrev addr : InetAddr
addr = record { iip = 3; iport = 6881 }

abbrev node : ℕ → KBucketEntry
node n = record { addr = addr; key = key n; last_active = 0; failed = 0 }

-- Two nodes at distances 2 ^ 153 and 3 * 2 ^ 152 from the node's own key.
abbrev bucket : KBucket
bucket = record { waiting = []; entries = node 2 ∷ node 3 ∷ []; last_modify = 0; slot_limit = 6 }

abbrev me : DhtNode
me = put_bucket (new (key 0)) 153 bucket

bucket-Stands : Stands 8 (key 0) 153 bucket
unfolding bucket_from first_bit minus
bucket-Stands = record {
  fits = record { fits = omega arith; limit = omega arith };
  keys = record {
    entries = ((key-IsKey 2 (omega arith), refl), ((key-IsKey 3 (omega arith), refl), tt));
    waiting = tt;
  };
}

me-IsTable : IsTable 8 me
unfolding new
me-IsTable =
    put_bucket-IsTable 8 (new (key 0)) 153 bucket (new-IsTable 8 (key 0) (omega arith))
      bucket-Stands

me-EachDistinct : EachDistinct me.buckets
unfolding EachDistinct new put_bucket eq
me-EachDistinct = (((refl, tt), (tt, tt)), tt)

me-Absent : Absent (key 7) (all_entries me.buckets)
unfolding all_entries new put_bucket eq
me-Absent = (refl, (refl, tt))

closest_nodes_lem_example :
    IsValid (closest_nodes 9 (λ e. 0) me (Store.new (key 7) 8))
    × All
        (λ e. Settled (closest_nodes 9 (λ e. 0) me (Store.new (key 7) 8)) (minus (key 7) e.key))
        (all_entries me.buckets)
closest_nodes_lem_example =
    closest_nodes_lem 8 9 (λ e. 0) me (key 7) 8 me-IsTable me-EachDistinct
      (key-IsKey 7 (omega arith)) (omega arith) me-Absent

run-IsTable_example : IsTable 8 (
    run (new (key 0)) (
      updates 1 0 addr (key 1) (key-IsKey 1 (omega arith))
      ∷ fails 2 0 addr (key 1)
      ∷ limits 8
      ∷ refreshes 4 (λ e. 0) (λ i. [])
      ∷ asks_slot 3 (key 1)
      ∷ []))
run-IsTable_example =
    run-IsTable 8 (key 0)
      (updates 1 0 addr (key 1) (key-IsKey 1 (omega arith))
        ∷ fails 2 0 addr (key 1)
        ∷ limits 8
        ∷ refreshes 4 (λ e. 0) (λ i. [])
        ∷ asks_slot 3 (key 1)
        ∷ [])
      (omega arith) (tt, (tt, (omega arith, (tt, (tt, tt)))))

find_bucket_lem_example :
    ((key 5 ≡ me.my_id) × (find_bucket me (key 5) ≡ 0xFF))
    ⊎ ((find_bucket me (key 5) < 160)
        × (2 ^ find_bucket me (key 5) ≤ key_value (minus (key 5) me.my_id))
        × (key_value (minus (key 5) me.my_id) < 2 ^ find_bucket me (key 5) * 2))
unfolding new put_bucket
find_bucket_lem_example =
    find_bucket_lem me (key 5) (key-IsKey 5 (omega arith)) (key-IsKey 0 (omega arith))

find_bucket-random_key_in_bucket_example :
    find_bucket me (random_key_in_bucket 153 me.my_id (replicate 20 77)) ≡ 6
unfolding new put_bucket
find_bucket-random_key_in_bucket_example =
    find_bucket-random_key_in_bucket me 153 (replicate 20 77) (omega arith)
      (key-IsKey 0 (omega arith)) refl

me-fresh : find_first (λ p. eq p.0 (key 9)) me.announce_record ≡ none
unfolding new put_bucket find_first
me-fresh = refl

do_announce_job-answered_example :
    (do_announce_job 1000
      (good_announce_peers_response 900 (2 ^ 56) me 3 (key 9))
      (1 ∷ [])
      (key 9)
      addr).1
    ≡ (do_announce_job 1000 me (1 ∷ []) (key 9) addr).1
do_announce_job-answered_example =
    do_announce_job-answered 900 1000 (2 ^ 56) me (1 ∷ []) (key 9) addr me-fresh (omega arith)
      (omega arith) (omega arith)

-- A random key of the first bucket differs in the first bit.
places_run :
    (find_bucket me (key 0) ≡ 0xFF)
    × (find_bucket me (key 128) ≡ 159)
    × (random_key_in_bucket 1 (key 0) (replicate 20 255) ≡ key 64)
unfolding find_bucket new put_bucket minus bucket_from first_bit random_key_in_bucket random_bytes
    differ copy_bits random
places_run = (refl, refl, refl)
