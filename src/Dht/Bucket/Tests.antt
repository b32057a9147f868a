-- ===== src/Dht/Bucket/Tests.antt =====
-- KBucket.cpp and KBucketEntry.cpp at concrete inputs.
use benliud.Common.{ℕ, ◌≡◌, refl, true, false, List, [], ◌∷◌, some}
use benliud.Common.Search.{find_first, update_first, remove_first, keep, all}
use benliud.Dht.Key.{eq}
use benliud.Dht.Entry.{
  InetAddr, KBucketEntry, new_entry, make_entry, copy, assign, same_key, is_good, is_questionable,
  is_bad, has_responded, request_timeout,
}
use benliud.Dht.Bucket.{
  KBucket, new, clean_bad_entry, check_questionable_and_replace, push_back, update_full, update,
  is_contain, need_refresh, replace_by_waiting, update_no_response, get_entry_addr, compact,
  compact_all, get_all_node_data, get_all_good_node_data, get_item_count, is_contain_addr,
  is_slot_full, set_slot_limit,
}

abbrev addr : ℕ → InetAddr
addr n = record { iip = n; iport = 6881 }

abbrev node : ℕ → KBucketEntry
node n = record { addr = addr n; key = n ∷ []; last_active = 0; failed = 0 }

abbrev entries_of : KBucket → List ℕ
entries_of b = ports b.entries
  where
    ports : List KBucketEntry → List ℕ
    ports [] = []
    ports (e ∷ es) = e.addr.iip ∷ ports es

-- Two nodes in a bucket with room for two, the second of which has failed three times.
abbrev bucket : KBucket
bucket = record {
  waiting = [];
  entries = node 1 ∷ record (node 2) { failed = 3 } ∷ [];
  last_modify = 0;
  slot_limit = 2;
}

-- A known node moves to the end, a new one drives the bad one out, and one that finds no bad node
-- waits.
updates :
    (entries_of (update 10 0 bucket (node 1)).0 ≡ 2 ∷ 1 ∷ [])
    × (entries_of (update 10 0 bucket (node 3)).0 ≡ 1 ∷ 3 ∷ [])
    × (entries_of (set_slot_limit (new 0) 2) ≡ [])
unfolding update update_full clean_bad_entry push_back set_slot_limit new copy same_key eq is_bad
    find_first remove_first
updates = (refl, refl, refl)

waits :
    (update 1000000 7 (record bucket { entries = node 1 ∷ node 2 ∷ [] }) (node 3)).0.waiting
    ≡ copy 1000000 7 (node 3) ∷ []
unfolding update update_full clean_bad_entry check_questionable_and_replace same_key eq is_bad
    is_questionable find_first keep
waits = refl

questions :
    (is_contain bucket (node 2) ≡ true)
    × (is_contain_addr bucket (addr 3) ≡ false)
    × ((need_refresh 400000 bucket).1 ≡ true)
    × ((is_slot_full 10 bucket).1 ≡ false)
    × (get_item_count bucket ≡ 2)
    × (get_entry_addr bucket (2 ∷ []) ≡ some (addr 2))
    × (get_all_node_data (record bucket { entries = node 1 ∷ [] }) (0 ∷ [])
        ≡ 0 ∷ 1 ∷ 0 ∷ 0 ∷ 0 ∷ 225 ∷ 26 ∷ [])
    × (get_all_good_node_data 900000 bucket [] ≡ [])
unfolding is_contain is_contain_addr need_refresh is_slot_full clean_bad_entry get_item_count
    get_entry_addr get_all_node_data get_all_good_node_data compact_all compact same_key eq is_bad
    is_good find_first remove_first keep all
questions = (refl, refl, refl, refl, refl, refl, refl, refl)

no_response :
    (update_no_response 10 0 bucket (node 1)).entries
    ≡ record (node 1) { failed = 1 } ∷ record (node 2) { failed = 3 } ∷ []
unfolding update_no_response replace_by_waiting same_key eq request_timeout find_first update_first
no_response = refl

entries :
    (has_responded 10 (record (node 2) { failed = 3 }) ≡ record (node 2) { last_active = 10 })
    × (assign (new_entry (addr 0) 10) (node 2) ≡ make_entry (addr 2) (2 ∷ []) 10 0)
    × (is_good 10 (node 1) ≡ true)
unfolding has_responded assign new_entry make_entry is_good
entries = (refl, refl, refl)
