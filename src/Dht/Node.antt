-- ===== src/Dht/Node.antt =====
-- benliud_btkad/src/DHTNode.cpp: the routing table of this node, 160 buckets by the distance from
-- its own key, and the lists of what has been asked of whom. A request to another node, which
-- `DoRequest` of FrontServer.cpp sends, is a result here.
pub mod Distance
pub mod Bits
pub mod RandomKey
pub mod Table
pub mod Slots
pub mod Calls
pub mod Records
pub mod Announce
mod Tests
use benliud.Common.{
  ℕ, zero, suc, ◌+◌, ◌-◌, ◌*◌, ◌/◌, ◌%◌, ◌^◌, Bool, true, false, not, ◌&&◌, List, [], ◌∷◌, ◌++◌,
  Option, none, some, map, length, get_or, set, replicate, ltb, leb, ◌==◌, if◌then◌else◌, bit_and,
  bit_or,
}
use benliud.Common.Search.{find_first, update_first, remove_first, all}
use benliud.Dht.Key.{Key, zero_key}
use benliud.Dht.Key
use benliud.Dht.Entry.{KBucketEntry, InetAddr, make_entry}
use benliud.Dht.Bucket.{KBucket}
use benliud.Dht.Bucket
use benliud.Dht.Store.{ClosestNodeStore, insert_node}
use benliud.Dht.Store
use benliud.Dht.Lookup.{get_closest_nodes, get_closest_good_nodes}

-- `TDHTTask`
pub record DhtTask : Type 0 where
  pub key : Key
  pub announce : Bool
  pub port : ℕ
  pub nextget : ℕ

-- `_announce`
pub record Announced : Type 0 where
  pub iip : ℕ
  pub tick : ℕ

-- `TRequestTask`, by its type: the node asked and its key, and what is asked for.
pub data Request : Type 0 where
  ping : InetAddr → Key → Request
  find_node get_peers : InetAddr → Key → Key → Request
  announce_peer : InetAddr → Key → (port : ℕ) → (token : List ℕ) → Request

-- The members that change. `m_AllNodes` has a node's address for the string that `GetPeerId` makes
-- of it. The maps are lists of pairs, `m_NodePool` in ascending order.
pub record DhtNode : Type 0 where
  pub my_id : Key
  pub buckets : List (Option KBucket)
  pub slot_limit : ℕ
  pub all_nodes : List (InetAddr × ℕ)
  pub find_nodes : List (ℕ × ℕ)
  pub get_peer_nodes : List (ℕ × ℕ)
  pub node_pool : List (Key × InetAddr)
  pub task_list : List DhtTask
  pub announce_record : List (Key × List Announced)

-- `CDHTNode(parent)`, with the key that `Random` has made.
unfoldable pub new : Key → DhtNode
new my_id = record {
  my_id = my_id;
  buckets = replicate 160 none;
  slot_limit = 6;
  all_nodes = [];
  find_nodes = [];
  get_peer_nodes = [];
  node_pool = [];
  task_list = [];
  announce_record = [];
}

-- `0x80 >> j`
abbrev pub mask : ℕ → ℕ
mask j = 0x80 / 2 ^ j

-- The loop over the bits of a byte, `left` of them from bit `j` on.
unfoldable pub first_bit : ℕ → ℕ → ℕ → Option ℕ
first_bit b j zero = none
first_bit b j (suc left) =
    let rest = first_bit b (j + 1) left in if bit_and b (mask j) == 0 then rest else some j

-- The loop over the bytes, from byte `i` on.
unfoldable pub bucket_from : ℕ → List ℕ → ℕ
bucket_from i [] = 0xFF
bucket_from i (b ∷ bs) =
    let rest = bucket_from (i + 1) bs in
    if b == 0
    then rest
    else elim (first_bit b 0 8) [ none ↦ rest | some j ↦ (19 - i) * 8 + (7 - j) ]

-- `FindBucket`
unfoldable pub find_bucket : DhtNode → Key → ℕ
find_bucket node id = bucket_from 0 (Key.minus id node.my_id)

-- The bits before bit `bit` of byte `ob`, in `data[nb]`.
unfoldable pub copy_bits : ℕ → ℕ → ℕ → ℕ
copy_bits zero ob byte = byte
copy_bits (suc j) ob byte =
    let before = copy_bits j ob byte in
    if bit_and (mask j) ob == 0 then bit_and before (255 - mask j) else bit_or before (mask j)

-- And the bit itself, which must differ.
unfoldable pub differ : ℕ → ℕ → ℕ → ℕ
differ bit ob byte =
    if bit_and (mask bit) ob == 0
    then bit_or (copy_bits bit ob byte) (mask bit)
    else bit_and (copy_bits bit ob byte) (255 - mask bit)

unfoldable pub random_bytes : ℕ → ℕ → Key → List ℕ → Key
random_bytes zero bit (ob ∷ obs) (d ∷ ds) = differ bit ob d ∷ ds
random_bytes (suc nb) bit (ob ∷ obs) (d ∷ ds) = ob ∷ random_bytes nb bit obs ds
random_bytes nb bit _ _ = []

-- `GetRandomKeyInBucket`, over 20 results of `rand`.
unfoldable pub random_key_in_bucket : ℕ → Key → List ℕ → Key
random_key_in_bucket b my_key random = random_bytes (b / 8) (b % 8) my_key (Key.random random)

-- `PingCheck`
unfoldable pub ping_check : KBucketEntry → Request
ping_check e = ping e.addr e.key

unfoldable pub bucket_at : DhtNode → ℕ → Option KBucket
bucket_at node pos = get_or node.buckets pos none

unfoldable pub put_bucket : DhtNode → ℕ → KBucket → DhtNode
put_bucket node pos b = record node { buckets = set node.buckets pos (some b) }

-- `m_BucketArray[pos]`, made if it is NULL.
unfoldable pub bucket_for_update : ℕ → DhtNode → ℕ → KBucket
bucket_for_update now node pos = elim (bucket_at node pos) [
  | none ↦ Bucket.set_slot_limit (Bucket.new now) node.slot_limit
  | some b ↦ b
]

-- `Update`. The entry that it makes and the copy of it leave `m_nFailed` uninitialised: `raw`.
unfoldable pub update : ℕ → ℕ → DhtNode → InetAddr → Key → DhtNode × List Request
update now raw node addr key =
    let pos = find_bucket node key in
    if leb 160 pos
    then (node, [])
    else let (b, pinged) =
        Bucket.update now raw (bucket_for_update now node pos) (make_entry addr key now raw) in
      (put_bucket node pos b, map ping_check pinged)

-- `UpdateNoResponse`
unfoldable pub update_no_response : ℕ → ℕ → DhtNode → InetAddr → Key → DhtNode
update_no_response now raw node addr key =
    let pos = find_bucket node key in
    if leb 160 pos then node else elim (bucket_at node pos) [
      | none ↦ node
      | some b ↦
          put_bucket node pos (Bucket.update_no_response now raw b (make_entry addr key now raw))
    ]

-- The loops `for (i = 0; i < 160; i++) if (m_BucketArray[i] != NULL) ...`.
unfoldable pub over_buckets {ℓ} : {A : Type ℓ} → (KBucket → A → A) → List (Option KBucket) → A → A
over_buckets f [] a = a
over_buckets f (none ∷ bs) a = over_buckets f bs a
over_buckets f (some b ∷ bs) a = over_buckets f bs (f b a)

-- `GetClosestNodes` and `GetClosestGoodNode`
unfoldable pub closest_nodes :
    ℕ → (KBucketEntry → ℕ) → DhtNode → ClosestNodeStore → ClosestNodeStore
closest_nodes now raw node closest = over_buckets (get_closest_nodes now raw) node.buckets closest

pub closest_good_nodes : ℕ → (KBucketEntry → ℕ) → DhtNode → ClosestNodeStore → ClosestNodeStore
closest_good_nodes now raw node store =
    over_buckets (get_closest_good_nodes now raw) node.buckets store

-- `GetItemCount`
pub get_item_count : DhtNode → ℕ
get_item_count node = over_buckets (λ b n. n + Bucket.get_item_count b) node.buckets 0

-- `GetAllGoodNodeData` and `GetAllNodeData`
pub get_all_good_node_data : ℕ → DhtNode → List ℕ → List ℕ
get_all_good_node_data now node out =
    over_buckets (Bucket.get_all_good_node_data now) node.buckets out

pub get_all_node_data : DhtNode → List ℕ → List ℕ
get_all_node_data node out = over_buckets Bucket.get_all_node_data node.buckets out

-- `IsContainAddr`
pub is_contain_addr : DhtNode → InetAddr → Bool
is_contain_addr node addr =
    over_buckets (λ b found. if found then true else Bucket.is_contain_addr b addr) node.buckets
      false

-- `IsBucketEmpty`
pub is_bucket_empty : DhtNode → Bool
is_bucket_empty node = over_buckets (λ b empty. false) node.buckets true

-- `SetSlotLimit`
unfoldable pub limit_slots : ℕ → List (Option KBucket) → List (Option KBucket)
limit_slots limit [] = []
limit_slots limit (none ∷ bs) = none ∷ limit_slots limit bs
limit_slots limit (some b ∷ bs) = some (Bucket.set_slot_limit b limit) ∷ limit_slots limit bs

unfoldable pub set_slot_limit : DhtNode → ℕ → DhtNode
set_slot_limit node limit = record node {
  slot_limit = limit;
  buckets = limit_slots limit node.buckets;
}

-- `IsContain`
pub is_contain : DhtNode → KBucketEntry → Bool
is_contain node entry =
    let pos = find_bucket node entry.key in
    if leb 160 pos
    then false
    else elim (bucket_at node pos) [ none ↦ false | some b ↦ Bucket.is_contain b entry ]

-- `GetEntryAddr`
pub get_entry_addr : DhtNode → Key → Option InetAddr
get_entry_addr node key =
    let pos = find_bucket node key in
    if leb 160 pos
    then none
    else elim (bucket_at node pos) [ none ↦ none | some b ↦ Bucket.get_entry_addr b key ]

-- `IsSlotFull`, which may drop a bad entry.
unfoldable pub is_slot_full : ℕ → DhtNode → Key → DhtNode × Bool
is_slot_full now node key =
    let pos = find_bucket node key in
    if leb 160 pos then (node, true) else elim (bucket_at node pos) [
      | none ↦ (node, false)
      | some b ↦
          let (cleaned, full) = Bucket.is_slot_full now b in (put_bucket node pos cleaned, full)
    ]
