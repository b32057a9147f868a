-- ===== src/Dht/Bucket.antt =====
-- benliud_btkad/src/KBucket.cpp: one bucket of the routing table, the entry last heard of at its
-- end, and the nodes that wait for a place in it. A tick is the result of `GetTickCount()` during
-- the call, and `raw` what the copy constructor leaves in `m_nFailed` of the entry pushed.
pub mod Bounds
pub mod Calls
pub mod Keys
pub mod Contents
mod Tests
use benliud.Common.{
  ℕ, zero, suc, ◌+◌, ◌-◌, ◌*◌, ◌/◌, ◌%◌, ◌^◌, Bool, true, false, not, ◌&&◌, List, [], ◌∷◌, ◌++◌,
  Option, none, some, length, ltb, leb, ◌==◌, if◌then◌else◌,
}
use benliud.Common.Search.{find_first, update_first, remove_first, keep, all}
use benliud.Dht.Key.{Key}
use benliud.Dht.Key
use benliud.Dht.Entry.{
  KBucketEntry, InetAddr, copy, same_key, is_good, is_questionable, is_bad, request_timeout,
  idle_time,
}

pub record KBucket : Type 0 where
  pub waiting : List KBucketEntry
  pub entries : List KBucketEntry
  pub last_modify : ℕ
  pub slot_limit : ℕ

-- `BUCKET_REFRESH_INTERVAL`
abbrev pub refresh_interval : ℕ
refresh_interval = 5 * 60 * 1000

-- `CKBucket(parent)`
unfoldable pub new : ℕ → KBucket
new now = record { waiting = []; entries = []; last_modify = now; slot_limit = 6 }

-- `CleanBadEntry`: the first entry that failed too often goes.
pub clean_bad_entry : ℕ → KBucket → KBucket × Bool
clean_bad_entry now b = elim (find_first is_bad b.entries) [
  | none ↦ (b, false)
  | some _ ↦ (record b { entries = remove_first is_bad b.entries; last_modify = now }, true)
]

-- `CheckQuestionableAndReplace`: the entries that the parent pings, and the node among the waiting
-- if there are any.
pub check_questionable_and_replace : ℕ → ℕ → KBucket → KBucketEntry → KBucket × List KBucketEntry
check_questionable_and_replace now raw b replace = elim (keep (is_questionable now) b.entries) [
  | [] ↦ (b, [])
  | e ∷ es ↦ (record b { waiting = b.waiting ++ copy now raw replace ∷ [] }, e ∷ es)
]

-- `push_back(node)`
pub push_back : ℕ → ℕ → KBucket → KBucketEntry → KBucket
push_back now raw b node = record b { entries = b.entries ++ copy now raw node ∷ [] }

-- The part of `Update` for a node that is not in the bucket, in a full bucket.
pub update_full : ℕ → ℕ → KBucket → KBucketEntry → KBucket × List KBucketEntry
update_full now raw b node =
    let (cleaned, found) = clean_bad_entry now b in
    if found
    then (push_back now raw cleaned node, [])
    else check_questionable_and_replace now raw b node

-- `Update`, with the entries that it has pinged.
pub update : ℕ → ℕ → KBucket → KBucketEntry → KBucket × List KBucketEntry
update now raw b node = elim (find_first (λ e. same_key e node) b.entries) [
  | some _ ↦ (
    push_back now raw
        (record b { entries = remove_first (λ e. same_key e node) b.entries; last_modify = now })
        node,
    [],
  )
  | none ↦
      if leb b.slot_limit (length b.entries)
      then update_full now raw b node
      else (push_back now raw (record b { last_modify = now }) node, [])
]

-- `IsContain`
pub is_contain : KBucket → KBucketEntry → Bool
is_contain b entry = not (all (λ e. not (same_key e entry)) b.entries)

-- `NeedRefresh`: nodes that have waited for too long go, unless the tick count has come round.
pub need_refresh : ℕ → KBucket → KBucket × Bool
need_refresh now b = if ltb now b.last_modify then (record b { last_modify = now }, false) else (
  record b { waiting = keep (λ e. not (ltb (25 * 1000) (idle_time now e))) b.waiting },
  not (length b.entries == 0) && leb refresh_interval (now - b.last_modify),
)

-- The part of `UpdateNoResponse` for a node in the bucket: its failure is counted, and the node
-- that has waited longest takes its place.
pub replace_by_waiting : ℕ → ℕ → KBucket → KBucketEntry → KBucket
replace_by_waiting now raw b node = elim b.waiting [
  | [] ↦ record b { entries = update_first (λ e. same_key e node) request_timeout b.entries }
  | w ∷ ws ↦
      record (push_back now raw
        (record b { entries = remove_first (λ e. same_key e node) b.entries }) w) {
          waiting = ws;
          last_modify = now;
        }
]

-- `UpdateNoResponse`
pub update_no_response : ℕ → ℕ → KBucket → KBucketEntry → KBucket
update_no_response now raw b node = elim (find_first (λ e. same_key e node) b.entries) [
  | none ↦ b
  | some _ ↦ replace_by_waiting now raw b node
]

-- `GetEntryAddr`
pub get_entry_addr : KBucket → Key → Option InetAddr
get_entry_addr b key = elim (find_first (λ e. Key.eq e.key key) b.entries) [
  | none ↦ none
  | some e ↦ some e.addr
]

-- `data.append((const char*)&addr.iip, 4)` and the same for the port, on a little-endian machine.
unfoldable pub compact : InetAddr → List ℕ
compact a =
    (a.iip % 256)
    ∷ (a.iip / 2 ^ 8 % 256)
    ∷ (a.iip / 2 ^ 16 % 256)
    ∷ (a.iip / 2 ^ 24 % 256)
    ∷ (a.iport % 256)
    ∷ (a.iport / 2 ^ 8 % 256)
    ∷ []

pub compact_all : List KBucketEntry → List ℕ
compact_all [] = []
compact_all (e ∷ es) = compact e.addr ++ compact_all es

-- `GetAllNodeData` and `GetAllGoodNodeData`: what they append.
pub get_all_node_data : KBucket → List ℕ → List ℕ
get_all_node_data b out = out ++ compact_all b.entries

pub get_all_good_node_data : ℕ → KBucket → List ℕ → List ℕ
get_all_good_node_data now b out = out ++ compact_all (keep (is_good now) b.entries)

-- `GetItemCount`
pub get_item_count : KBucket → ℕ
get_item_count b = length b.entries

-- `IsContainAddr`
pub is_contain_addr : KBucket → InetAddr → Bool
is_contain_addr b addr =
    not (all (λ e. not (e.addr.iip == addr.iip && e.addr.iport == addr.iport)) b.entries)

-- `IsSlotFull`, which may drop a bad entry.
pub is_slot_full : ℕ → KBucket → KBucket × Bool
is_slot_full now b =
    if ltb (length b.entries) b.slot_limit
    then (b, false)
    else let (cleaned, found) = clean_bad_entry now b in (cleaned, not found)

-- `SetSlotLimit`, with the assertion compiled out.
unfoldable pub set_slot_limit : KBucket → ℕ → KBucket
set_slot_limit b limit = record b { slot_limit = limit }
