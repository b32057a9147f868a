-- ===== src/Dht/Node/Records.antt =====
-- benliud_btkad/src/DHTNode.cpp: whom this node has asked, the tasks to find peers, the announcements,
-- and the jobs of its timers. `tick` is a result of `GetTickCount()`, of 32 bits, and `time` one of
-- `GetTimeTick()`, of 64 bits.
use benliud.Common.{
  ℕ, ◌+◌, ◌-◌, ◌*◌, ◌%◌, ◌^◌, Bool, true, false, ◌&&◌, List, [], ◌∷◌, ◌++◌, Option, none, some, map,
  length, ltb, ◌==◌, if◌then◌else◌,
}
use benliud.Common.Search.{find_first, update_first, remove_first}
use benliud.Dht.Key.{Key, zero_key}
use benliud.Dht.Key
use benliud.Dht.Entry.{KBucketEntry, InetAddr, make_entry}
use benliud.Dht.Bucket.{KBucket}
use benliud.Dht.Bucket
use benliud.Dht.Store.{ClosestNodeStore, insert_node}
use benliud.Dht.Store
use benliud.Dht.Lookup.{get_closest_nodes}
use benliud.Dht.Node.{
  DhtNode, DhtTask, Announced, Request, find_node, get_peers, announce_peer, random_key_in_bucket,
}

-- `GetPeerId` gives different strings for different addresses.
pub same_addr : InetAddr → InetAddr → Bool
same_addr a b = a.iip == b.iip && a.iport == b.iport

-- `IsUsedAddr`
pub is_used_addr : DhtNode → InetAddr → Bool
is_used_addr node addr = elim (find_first (λ p. same_addr p.0 addr) node.all_nodes) [
  | none ↦ false
  | some _ ↦ true
]

-- `AddNewGotNode`
unfoldable pub add_new_got_node : ℕ → DhtNode → InetAddr → DhtNode × Bool
add_new_got_node time node addr =
    if is_used_addr node addr
    then (node, false)
    else (record node { all_nodes = (addr, time) ∷ node.all_nodes }, true)

-- `BootUp`, over the addresses that `GetInitNode` gives until it gives none, 8 at most.
boot_up_from : ℕ → DhtNode → List InetAddr → DhtNode × List Request
boot_up_from time node [] = (node, [])
boot_up_from time node (addr ∷ addrs) =
    let (next, added) = add_new_got_node time node addr in
    let (last, asked) = boot_up_from time next addrs in
    (last, if added then find_node addr zero_key node.my_id ∷ asked else asked)

pub boot_up : ℕ → DhtNode → List InetAddr → DhtNode × List Request × Bool
boot_up time node addrs =
    let (last, asked) = boot_up_from time node addrs in (last, asked, ltb 0 (length asked))

-- `RecordNodeForFindNode` and `RecordNodeForGetPeers`: by the address without the port.
pub record_node_for_find_node : DhtNode → InetAddr → DhtNode × Bool
record_node_for_find_node node addr = elim (find_first (λ p. p.0 == addr.iip) node.find_nodes) [
  | some _ ↦ (node, false)
  | none ↦ (record node { find_nodes = (addr.iip, addr.iport) ∷ node.find_nodes }, true)
]

pub record_node_for_get_peers : DhtNode → InetAddr → DhtNode × Bool
record_node_for_get_peers node addr = elim (find_first (λ p. p.0 == addr.iip) node.get_peer_nodes) [
  | some _ ↦ (node, false)
  | none ↦ (record node { get_peer_nodes = (addr.iip, addr.iport) ∷ node.get_peer_nodes }, true)
]

-- `AddGetPeerTask`
unfoldable pub add_get_peer_task : DhtNode → Key → Bool → ℕ → DhtNode
add_get_peer_task node infohash announce tport =
    elim (find_first (λ t. Key.eq t.key infohash) node.task_list) [
      | some _ ↦ record node {
        task_list =
            update_first (λ t. Key.eq t.key infohash)
              (λ t. record t { announce = announce; port = tport }) node.task_list;
      }
      | none ↦ record node {
        task_list =
            node.task_list
            ++ record { key = infohash; announce = announce; port = tport; nextget = 0 } ∷ [];
      }
    ]

-- `RemoveGetPeersTask`
unfoldable pub remove_get_peers_task : DhtNode → Key → DhtNode
remove_get_peers_task node infohash = record node {
  task_list = remove_first (λ t. Key.eq t.key infohash) node.task_list;
}

-- `IsTaskExists`
unfoldable pub is_task_exists : DhtNode → Key → Bool
is_task_exists node key = elim (find_first (λ t. Key.eq t.key key) node.task_list) [
  | none ↦ false
  | some _ ↦ true
]

-- `m_NodePool`
pool_insert : Key → InetAddr → List (Key × InetAddr) → List (Key × InetAddr)
pool_insert key addr [] = (key, addr) ∷ []
pool_insert key addr ((k, a) ∷ ps) =
    let rest = pool_insert key addr ps in
    if Key.lt key k then (key, addr) ∷ (k, a) ∷ ps else (k, a) ∷ rest

-- `IsNodeInActivePool`
pub is_node_in_active_pool : DhtNode → Key → Bool
is_node_in_active_pool node key = elim (find_first (λ p. Key.eq p.0 key) node.node_pool) [
  | none ↦ false
  | some _ ↦ true
]

-- `AddActiveNode`
pub add_active_node : DhtNode → Key → InetAddr → DhtNode × Bool
add_active_node node key addr =
    if is_node_in_active_pool node key
    then (node, false)
    else (record node { node_pool = pool_insert key addr node.node_pool }, true)

-- `RemoveActiveNode`
pub remove_active_node : DhtNode → Key → DhtNode
remove_active_node node key = record node {
  node_pool = remove_first (λ p. Key.eq p.0 key) node.node_pool;
}

-- `GetClosestGoodNodeInActivePool`; `raw` stands for an uninitialised `m_nFailed`.
insert_pool : ℕ → ℕ → ClosestNodeStore → List (Key × InetAddr) → ClosestNodeStore
insert_pool now raw s [] = s
insert_pool now raw s ((key, addr) ∷ ps) =
    insert_pool now raw (insert_node now raw s (make_entry addr key now raw)) ps

pub closest_good_nodes_in_active_pool : ℕ → ℕ → DhtNode → ClosestNodeStore → ClosestNodeStore
closest_good_nodes_in_active_pool now raw node store = insert_pool now raw store node.node_pool

-- `DoGetPeersJob`: it ends with the first task for which the pool is too small.
get_peers_tasks : ℕ → ℕ → ℕ → DhtNode → List DhtTask → List DhtTask × List Request
get_peers_tasks time now raw node [] = ([], [])
get_peers_tasks time now raw node (t ∷ ts) =
    let (rest, asked) = get_peers_tasks time now raw node ts in
    let found = (closest_good_nodes_in_active_pool now raw node (Store.new t.key 8)).result_map in
    if ltb time t.nextget
    then (t ∷ rest, asked)
    else if ltb 7 (length found)
    then (
      record t { nextget = (time + 60) % 2 ^ 64 } ∷ rest,
      map (λ p. get_peers p.1.addr p.1.key t.key) found ++ asked,
    )
    else (t ∷ ts, [])

pub do_get_peers_job : ℕ → ℕ → ℕ → DhtNode → DhtNode × List Request
do_get_peers_job time now raw node =
    let (tasks, asked) = get_peers_tasks time now raw node node.task_list in
    (record node { task_list = tasks }, asked)

-- `RefreshBucket`, from bucket `i` on; `rand` are the results of `rand` for a bucket.
unfoldable pub refresh_from :
    (now : ℕ) (raw : KBucketEntry → ℕ) (rand : ℕ → List ℕ) (my_id : Key) (i : ℕ)
    → List (Option KBucket)
    → List (Option KBucket) × List Request
refresh_from now raw rand my_id i [] = ([], [])
refresh_from now raw rand my_id i (none ∷ bs) =
    let (rest, asked) = refresh_from now raw rand my_id (i + 1) bs in (none ∷ rest, asked)
refresh_from now raw rand my_id i (some b ∷ bs) =
    let (rest, asked) = refresh_from now raw rand my_id (i + 1) bs in
    let (fresh, due) = Bucket.need_refresh now b in
    let randkey = random_key_in_bucket i my_id (rand i) in
    let closest = (get_closest_nodes now raw fresh (Store.new randkey 8)).result_map in
    (
      some fresh ∷ rest,
      if due then map (λ p. find_node p.1.addr p.1.key randkey) closest ++ asked else asked,
    )

unfoldable pub refresh_bucket :
    ℕ → (KBucketEntry → ℕ) → (ℕ → List ℕ) → DhtNode → DhtNode × List Request
refresh_bucket now raw rand node =
    let (fresh, asked) = refresh_from now raw rand node.my_id 0 node.buckets in
    (record node { buckets = fresh }, asked)

-- `GetTickCount() - it2->tick < 5*60*1000`, on `ULONGLONG`.
unfoldable pub is_recent : ℕ → Announced → Bool
is_recent tick a = ltb ((tick + 2 ^ 64 - a.tick) % 2 ^ 64) (5 * 60 * 1000)

unfoldable pub announced_to : DhtNode → Key → ℕ → Option Announced
announced_to node key ip = elim (find_first (λ p. Key.eq p.0 key) node.announce_record) [
  | none ↦ none
  | some (k, announced) ↦ find_first (λ a. a.iip == ip) announced
]

-- The part of `DoAnnounceJob` behind the test: the first task for the key is announced if it is to
-- be.
unfoldable pub announce_task : DhtNode → List ℕ → Key → InetAddr → List Request
announce_task node token hash addr = elim (find_first (λ t. Key.eq t.key hash) node.task_list) [
  | none ↦ []
  | some t ↦ if t.announce then announce_peer addr hash t.port token ∷ [] else []
]

unfoldable pub forget_announced : DhtNode → Key → ℕ → DhtNode
forget_announced node key ip = record node {
  announce_record =
      update_first (λ p. Key.eq p.0 key) (λ p. (p.0, remove_first (λ a. a.iip == ip) p.1))
        node.announce_record;
}

-- `DoAnnounceJob`
unfoldable pub do_announce_job : ℕ → DhtNode → List ℕ → Key → InetAddr → DhtNode × List Request
do_announce_job tick node token hash addr = elim (announced_to node hash addr.iip) [
  | none ↦ (node, announce_task node token hash addr)
  | some a ↦
      if is_recent tick a
      then (node, [])
      else (forget_announced node hash addr.iip, announce_task node token hash addr)
]

-- `GoodAnnouncePeersResponse` for a key that is there: the time of an address is renewed, or the
-- address is added.
unfoldable pub answered : ℕ → ℕ → ℕ → List Announced → List Announced
answered tick time ip announced = elim (find_first (λ a. a.iip == ip) announced) [
  | some _ ↦ update_first (λ a. a.iip == ip) (λ a. record a { tick = tick }) announced
  | none ↦ announced ++ record { iip = ip; tick = time } ∷ []
]

unfoldable pub good_announce_peers_response : ℕ → ℕ → DhtNode → ℕ → Key → DhtNode
good_announce_peers_response tick time node ip key =
    elim (find_first (λ p. Key.eq p.0 key) node.announce_record) [
      | none ↦ record node {
        announce_record = (key, record { iip = ip; tick = time } ∷ []) ∷ node.announce_record;
      }
      | some _ ↦ record node {
        announce_record =
            update_first (λ p. Key.eq p.0 key) (λ p. (p.0, answered tick time ip p.1))
              node.announce_record;
      }
    ]
