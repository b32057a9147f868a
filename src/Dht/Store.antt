-- ===== src/Dht/Store.antt =====
-- benliud_btkad/src/ClosestNodeStore.cpp and NearerNodeStore.cpp: the nodes nearest to a key, in a
-- `std::map` from distance to node.
pub mod Map
pub mod Outcome
pub mod Closest
mod Tests
use benliud.Common.{
  ℕ, zero, suc, Bool, true, false, not, ◌&&◌, ◌||◌, List, [], ◌∷◌, Option, none, some, length, ltb,
  ◌==◌, if◌then◌else◌,
}
use benliud.Dht.Key.{Key}
use benliud.Dht.Key
use benliud.Dht.Entry.{KBucketEntry, copy}

-- `std::map<BTDHTKey, CKBucketEntry>`, its pairs in ascending order.
abbrev pub EntryMap : Type 0
EntryMap = List (Key × KBucketEntry)

-- `std::map::insert`: a key that is there keeps its value.
pub map_insert : Key → KBucketEntry → EntryMap → EntryMap
map_insert d e [] = (d, e) ∷ []
map_insert d e ((k, v) ∷ m) =
    let rest = map_insert d e m in
    if Key.lt d k then (d, e) ∷ (k, v) ∷ m else if Key.lt k d then (k, v) ∷ rest else (k, v) ∷ m

-- `std::map::erase` by key.
pub map_erase : Key → EntryMap → EntryMap
map_erase d [] = []
map_erase d ((k, v) ∷ m) =
    let rest = map_erase d m in if Key.lt d k || Key.lt k d then (k, v) ∷ rest else m

-- `rbegin()->first`; `none` on an empty map, where the program has no such element.
unfoldable pub last_key : EntryMap → Option Key
last_key [] = none
last_key ((k, v) ∷ []) = some k
last_key ((k, v) ∷ (p ∷ m)) = last_key (p ∷ m)

pub record ClosestNodeStore : Type 0 where
  pub max_result : ℕ
  pub base_point : Key
  pub result_map : EntryMap
  pub no_self : Bool

-- `CClosestNodeStore(basepoint, maxresult)`
unfoldable pub new : Key → ℕ → ClosestNodeStore
new base_point max_result = record {
  max_result = max_result;
  base_point = base_point;
  result_map = [];
  no_self = true;
}

-- The part of `InsertNode` for a full store: a nearer node displaces the farthest.
pub insert_full : ClosestNodeStore → Key → KBucketEntry → Option Key → ClosestNodeStore
insert_full s dis entry none = s
insert_full s dis entry (some max) =
    if Key.lt dis max
    then record s { result_map = map_erase max (map_insert dis entry s.result_map) }
    else s

-- `InsertNode`. The map holds a copy of the entry, which the copy constructor stamps.
pub insert_node : ℕ → ℕ → ClosestNodeStore → KBucketEntry → ClosestNodeStore
insert_node now raw s entry =
    let dis = Key.minus s.base_point entry.key in
    if s.no_self && Key.eq entry.key s.base_point
    then s
    else if ltb (length s.result_map) s.max_result
    then record s { result_map = map_insert dis (copy now raw entry) s.result_map }
    else insert_full s dis (copy now raw entry) (last_key s.result_map)

-- `NoSelf`
pub set_no_self : ClosestNodeStore → Bool → ClosestNodeStore
set_no_self s no_self = record s { no_self = no_self }

-- `IsNearer`
pub is_nearer : ClosestNodeStore → Key → Bool
is_nearer s key = elim (last_key s.result_map) [
  | none ↦ true
  | some max ↦ Key.le (Key.minus s.base_point key) max
]
