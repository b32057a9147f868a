-- ===== src/Dht/Store/Tests.antt =====
-- ClosestNodeStore.cpp at concrete inputs.
use benliud.Common.{ℕ, ◌≡◌, refl, true, false, List, [], ◌∷◌}
use benliud.Dht.Key.{Key, eq, lt, le, minus}
use benliud.Dht.Entry.{KBucketEntry, copy}
use benliud.Dht.Store.{
  ClosestNodeStore, EntryMap, new, map_insert, map_erase, last_key, insert_full, insert_node,
  set_no_self, is_nearer,
}

abbrev node : ℕ → KBucketEntry
node n = record {
  addr = record { iip = n; iport = 6881 };
  key = n ∷ [];
  last_active = 0;
  failed = 0;
}

abbrev keys : EntryMap → List Key
keys [] = []
keys ((k, e) ∷ m) = k ∷ keys m

abbrev store : ClosestNodeStore
store = insert_node 5 0 (insert_node 5 0 (new (1 ∷ []) 2) (node 9)) (node 3)

inserts :
    (keys store.result_map ≡ (2 ∷ []) ∷ (8 ∷ []) ∷ [])
    × (keys (insert_node 5 0 store (node 5)).result_map ≡ (2 ∷ []) ∷ (4 ∷ []) ∷ [])
    × (keys (insert_node 5 0 store (node 17)).result_map ≡ (2 ∷ []) ∷ (8 ∷ []) ∷ [])
    × (keys (insert_node 5 0 store (node 1)).result_map ≡ (2 ∷ []) ∷ (8 ∷ []) ∷ [])
    × (keys (insert_node 5 0 (set_no_self store false) (node 1)).result_map
        ≡ (0 ∷ []) ∷ (2 ∷ []) ∷ [])
    × (is_nearer store (5 ∷ []) ≡ true)
unfolding insert_node insert_full new set_no_self map_insert map_erase last_key is_nearer eq lt le
    minus copy
inserts = (refl, refl, refl, refl, refl, refl)
