-- ===== src/Dht/Tests.antt =====
-- The DHT's keys, buckets and stores at concrete inputs, and their theorems where their hypotheses
-- hold.
use benliud.Common.{ℕ, ◌+◌, ◌≤◌, ◌<◌, ◌≡◌, refl, true, false, ◌&&◌, arith, [], ◌∷◌, some, length}
use benliud.Common.Search.{count, find_first, remove_first}
use benliud.Dht.Key.{Key, IsKey, eq, lt, minus}
use benliud.Dht.Entry.{KBucketEntry, same_key}
use benliud.Dht.Bucket.{KBucket, update, update_no_response}
use benliud.Dht.Bucket.Bounds.{IsBounded}
use benliud.Dht.Bucket.Calls.{updates, fails, refreshes, limits, asks_slot, run, run-IsBounded}
use benliud.Dht.Bucket
use benliud.Dht.Bucket.Keys.{Distinct, update_no_response-duplicate}
use benliud.Dht.Store.{ClosestNodeStore, last_key, insert_node}
use benliud.Dht.Store.Map.{has}
use benliud.Dht.Store.Outcome.{IsValid, distance}
use benliud.Dht.Store.Closest.{insert_node-again}

abbrev key : ℕ → Key
key n = n ∷ 0 ∷ 0 ∷ 0 ∷ 0 ∷ 0 ∷ 0 ∷ 0 ∷ 0 ∷ 0 ∷ 0 ∷ 0 ∷ 0 ∷ 0 ∷ 0 ∷ 0 ∷ 0 ∷ 0 ∷ 0 ∷ 0 ∷ []

key-IsKey : (n : ℕ) → n < 256 → IsKey (key n)
key-IsKey n h = record { sized = refl; in_range = (h, omega arith) }

abbrev node : ℕ → KBucketEntry
node n = record {
  addr = record { iip = n; iport = 6881 };
  key = key n;
  last_active = 0;
  failed = 0;
}

-- A bucket of two nodes, one of which waits for an answer no more.
abbrev bucket : KBucket
bucket = record {
  waiting = node 9 ∷ [];
  entries = node 1 ∷ node 2 ∷ [];
  last_modify = 0;
  slot_limit = 2;
}

bucket-Distinct : Distinct bucket.entries
unfolding eq
bucket-Distinct = ((refl, tt), (tt, tt))

-- Node 2 is in the bucket, and waits for a place in it as well.
abbrev doubled : KBucket
doubled = record bucket { waiting = node 2 ∷ [] }

doubled-found : find_first (λ e. same_key e (node 1)) doubled.entries ≡ some (node 1)
unfolding find_first same_key eq
doubled-found = refl

doubled-twice :
    find_first
      (λ e. eq e.key (node 2).key)
      (remove_first (λ e. same_key e (node 1)) doubled.entries)
    ≡ some (node 2)
unfolding find_first remove_first same_key eq
doubled-twice = refl

update_no_response-duplicate_example :
    (length (update_no_response 1000 7 doubled (node 1)).entries ≡ length doubled.entries)
    × (2 ≤ count (λ e. eq e.key (key 2)) (update_no_response 1000 7 doubled (node 1)).entries)
update_no_response-duplicate_example =
    update_no_response-duplicate 1000 7 doubled (node 1) (node 1) (node 2) (node 2) [] doubled-found
      refl doubled-twice

-- A full store whose farthest node is number 8.
abbrev store : ClosestNodeStore
store = record {
  max_result = 2;
  base_point = key 0;
  result_map = (key 4, node 4) ∷ (key 8, node 8) ∷ [];
  no_self = true;
}

store-IsValid : IsValid store
unfolding lt
store-IsValid = record {
  base = key-IsKey 0 (omega arith);
  some_room = omega arith;
  sorted = (refl, (refl, tt), (refl, tt, tt));
  bounded = omega arith;
}

not_base : (n : ℕ) → 0 < n → (store.no_self && eq (node n).key store.base_point) ≡ false
unfolding eq
not_base n h = ground arith

five_is_new : has (distance store (node 5)) store.result_map ≡ false
unfolding has minus eq
five_is_new = refl

four_is_there : has (distance store (node 4)) store.result_map ≡ true
unfolding has minus eq
four_is_there = refl

eight_is_last : last_key store.result_map ≡ some (key 8)
unfolding last_key
eight_is_last = refl

four_is_near : lt (distance store (node 4)) (key 8) ≡ true
unfolding lt minus
four_is_near = refl

insert_node-again_example :
    (length (insert_node 50 7 store (node 4)).result_map + 1 ≡ store.max_result)
    × (has (key 8) (insert_node 50 7 store (node 4)).result_map ≡ false)
insert_node-again_example =
    insert_node-again 50 7 store (node 4) (key 8) store-IsValid (key-IsKey 4 (omega arith))
      (not_base 4 (omega arith)) refl four_is_there eight_is_last four_is_near

run-IsBounded_example : IsBounded 8 (
    run (Bucket.new 10) (
      updates 20 7 (node 1)
      ∷ updates 30 7 (node 2)
      ∷ fails 40 7 (node 1)
      ∷ refreshes 50
      ∷ limits 8
      ∷ limits 5
      ∷ asks_slot 60
      ∷ []))
run-IsBounded_example =
    run-IsBounded 8 10
      (updates 20 7 (node 1)
        ∷ updates 30 7 (node 2)
        ∷ fails 40 7 (node 1)
        ∷ refreshes 50
        ∷ limits 8
        ∷ limits 5
        ∷ asks_slot 60
        ∷ [])
      (omega arith) (tt, (tt, (tt, (tt, (omega arith, (omega arith, (tt, tt)))))))
