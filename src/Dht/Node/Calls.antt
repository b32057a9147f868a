-- ===== src/Dht/Node/Calls.antt =====
-- Any sequence of the calls that change the buckets of benliud_btkad/src/DHTNode.cpp, and the lookup
-- in the whole table.
use benliud.Common.{
  ℕ, suc, ◌≤◌, ◌<◌, ◌≡◌, ◌≢◌, refl, ap, ◌∙◌, sym, false, arith, List, [], ◌∷◌, ◌++◌, Option, none,
  some, All, All-append, All-mono, Bool-cases, inl, inr,
}
use benliud.Dht.Key.{Key, IsKey, eq, minus}
use benliud.Dht.Key.Order.{eq_iff}
use benliud.Dht.Entry.{KBucketEntry, InetAddr}
use benliud.Dht.Bucket.{KBucket}
use benliud.Dht.Bucket.Keys.{Absent, Distinct}
use benliud.Dht.Store.{ClosestNodeStore, insert_node}
use benliud.Dht.Store
use benliud.Dht.Store.Outcome.{IsValid, Settled}
use benliud.Dht.Lookup.{insert_all, get_closest_nodes, get_closest_nodes_lem}
use benliud.Dht.Node.{
  DhtNode, new, bucket_from, over_buckets, closest_nodes, update, update_no_response, is_slot_full,
  set_slot_limit,
}
use benliud.Dht.Node.Records.{refresh_bucket}
use benliud.Dht.Node.Slots.{set_slot_limit-IsTable, refresh_bucket-IsTable}
use benliud.Dht.Node.Table.{
  StandFrom, IsTable, update-IsTable, update_no_response-IsTable, is_slot_full-IsTable, new-IsTable,
}

-- The calls, each with its ticks; the keys that are entered have 20 bytes.
pub data Call : Type 0 where
  updates : (now raw : ℕ) (addr : InetAddr) (key : Key) → IsKey key → Call
  fails : (now raw : ℕ) (addr : InetAddr) (key : Key) → Call
  asks_slot : (now : ℕ) (key : Key) → Call
  refreshes : (now : ℕ) (raw : KBucketEntry → ℕ) (rand : ℕ → List ℕ) → Call
  limits : (limit : ℕ) → Call

unfoldable pub step : DhtNode → Call → DhtNode
step node (updates now raw addr key k) = (update now raw node addr key).0
step node (fails now raw addr key) = update_no_response now raw node addr key
step node (asks_slot now key) = (is_slot_full now node key).0
step node (refreshes now raw rand) = (refresh_bucket now raw rand node).0
step node (limits limit) = set_slot_limit node limit

unfoldable pub run : DhtNode → List Call → DhtNode
run node [] = node
run node (c ∷ cs) = run (step node c) cs

-- The limits that are set are at most so many.
abbrev pub IsWithin : ℕ → Call → Type 0
IsWithin most (limits limit) = limit ≤ most
IsWithin most _ = Unit

step-IsTable :
    (most : ℕ) (node : DhtNode) (c : Call)
    → IsWithin most c
    → IsTable most node
    → IsTable most (step node c)
unfolding step
step-IsTable most node (updates now raw addr key k) h t =
    update-IsTable most now raw node addr key k t
step-IsTable most node (fails now raw addr key) h t =
    update_no_response-IsTable most now raw node addr key t
step-IsTable most node (asks_slot now key) h t = is_slot_full-IsTable most now node key t
step-IsTable most node (refreshes now raw rand) h t =
    refresh_bucket-IsTable most now raw rand node t
step-IsTable most node (limits limit) h t = set_slot_limit-IsTable most node limit h t

run_from-IsTable :
    (most : ℕ) (cs : List Call) (node : DhtNode)
    → All (IsWithin most) cs
    → IsTable most node
    → IsTable most (run node cs)
unfolding run
run_from-IsTable most [] node h t = t
run_from-IsTable most (c ∷ cs) node h t =
    run_from-IsTable most cs (step node c) h.1 (step-IsTable most node c h.0 t)

-- After any calls on a new node that change its buckets, `RefreshBucket` and `SetSlotLimit` among them,
-- its table has 160 places, each node in a bucket has a key of 20 bytes that `FindBucket` leads to this
-- bucket, and no bucket has more nodes than the largest of its limits: those that were set, and the 6
-- slots that it starts with. The keys that are entered have 20 bytes.
pub run-IsTable :
    (most : ℕ) (my_id : Key) (cs : List Call)
    → 6 ≤ most
    → All (IsWithin most) cs
    → IsTable most (run (new my_id) cs)
run-IsTable most my_id cs six h =
    run_from-IsTable most cs (new my_id) h (new-IsTable most my_id six)

-- The nodes in all buckets.
unfoldable pub all_entries : List (Option KBucket) → List KBucketEntry
all_entries [] = []
all_entries (none ∷ bs) = all_entries bs
all_entries (some b ∷ bs) = b.entries ++ all_entries bs

-- No bucket has a key twice.
unfoldable pub EachDistinct : List (Option KBucket) → Type 0
EachDistinct [] = Unit
EachDistinct (none ∷ bs) = EachDistinct bs
EachDistinct (some b ∷ bs) = Distinct b.entries × EachDistinct bs

insert_all-append :
    (now : ℕ) (raw : KBucketEntry → ℕ) (es fs : List KBucketEntry) (s : ClosestNodeStore)
    → insert_all now raw s (es ++ fs) ≡ insert_all now raw (insert_all now raw s es) fs
unfolding insert_all
insert_all-append now raw [] fs s = refl
insert_all-append now raw (e ∷ es) fs s =
    insert_all-append now raw es fs (insert_node now (raw e) s e)

over_buckets-insert_all :
    (now : ℕ) (raw : KBucketEntry → ℕ) (bs : List (Option KBucket)) (s : ClosestNodeStore)
    → over_buckets (get_closest_nodes now raw) bs s ≡ insert_all now raw s (all_entries bs)
unfolding over_buckets all_entries get_closest_nodes insert_all
over_buckets-insert_all now raw [] s = refl
over_buckets-insert_all now raw (none ∷ bs) s = over_buckets-insert_all now raw bs s
over_buckets-insert_all now raw (some b ∷ bs) s =
    over_buckets-insert_all now raw bs (insert_all now raw s b.entries)
    ∙ sym (insert_all-append now raw b.entries (all_entries bs) s)

other_bucket :
    (my_id k l : Key) (i j : ℕ)
    → bucket_from 0 (minus k my_id) ≡ i
    → bucket_from 0 (minus l my_id) ≡ j
    → i ≢ j
    → eq k l ≡ false
other_bucket my_id k l i j p q ne = elim (Bool-cases (eq k l)) [
  | inl e ↦ absurd (ne (sym p ∙ ap (λ x. bucket_from 0 (minus x my_id)) ((eq_iff k l).0 e) ∙ q))
  | inr e ↦ e
]

Absent-later :
    (most : ℕ) (my_id k : Key) (j i : ℕ) (bs : List (Option KBucket))
    → bucket_from 0 (minus k my_id) ≡ j
    → j < i
    → StandFrom most my_id i bs
    → Absent k (all_entries bs)
unfolding StandFrom all_entries
Absent-later most my_id k j i [] p h t = tt
Absent-later most my_id k j i (none ∷ bs) p h t =
    Absent-later most my_id k j (suc i) bs p (omega arith) t
Absent-later most my_id k j i (some b ∷ bs) p h t =
    All-append (λ e. eq e.key k ≡ false) b.entries (all_entries bs)
      (All-mono _ _ b.entries
        (λ e q. other_bucket my_id e.key k i j q.1 p (λ x. absurd (omega (arith, x))))
        t.0.keys.entries)
      (Absent-later most my_id k j (suc i) bs p (omega arith) t.1)

Distinct-append :
    (xs ys : List KBucketEntry)
    → Distinct xs
    → Distinct ys
    → All (λ x. Absent x.key ys) xs
    → Distinct (xs ++ ys)
Distinct-append [] ys p q h = q
Distinct-append (x ∷ xs) ys p q h =
    (All-append (λ e. eq e.key x.key ≡ false) xs ys p.0 h.0, Distinct-append xs ys p.1 q h.1)

Distinct-all_entries :
    (most : ℕ) (my_id : Key) (i : ℕ) (bs : List (Option KBucket))
    → StandFrom most my_id i bs
    → EachDistinct bs
    → Distinct (all_entries bs)
unfolding StandFrom all_entries EachDistinct
Distinct-all_entries most my_id i [] t d = tt
Distinct-all_entries most my_id i (none ∷ bs) t d = Distinct-all_entries most my_id (suc i) bs t d
Distinct-all_entries most my_id i (some b ∷ bs) t d =
    Distinct-append b.entries (all_entries bs) d.0
      (Distinct-all_entries most my_id (suc i) bs t.1 d.1)
      (All-mono _ _ b.entries
        (λ e q. Absent-later most my_id e.key i (suc i) bs q.1 (omega arith) t.1) t.0.keys.entries)

IsKey-all_entries :
    (most : ℕ) (my_id : Key) (i : ℕ) (bs : List (Option KBucket))
    → StandFrom most my_id i bs
    → All (λ e. IsKey e.key) (all_entries bs)
unfolding StandFrom all_entries
IsKey-all_entries most my_id i [] t = tt
IsKey-all_entries most my_id i (none ∷ bs) t = IsKey-all_entries most my_id (suc i) bs t
IsKey-all_entries most my_id i (some b ∷ bs) t =
    All-append (λ e. IsKey e.key) b.entries (all_entries bs)
      (All-mono _ _ b.entries (λ e q. q.0) t.0.keys.entries)
      (IsKey-all_entries most my_id (suc i) bs t.1)

-- On a table in which no bucket has a key twice, and for a base point that is in no bucket,
-- `GetClosestNodes` of the node fills a new store for one node or more with the nearest nodes of the
-- whole table: it is sorted and within its limit, and each node of the table is in it, or it is full
-- of nearer ones.
pub closest_nodes_lem :
    (most now : ℕ) (raw : KBucketEntry → ℕ) (node : DhtNode) (base : Key) (max : ℕ)
    → IsTable most node
    → EachDistinct node.buckets
    → IsKey base
    → 0 < max
    → Absent base (all_entries node.buckets)
    → let s = closest_nodes now raw node (Store.new base max) in
      IsValid s × All (λ e. Settled s (minus base e.key)) (all_entries node.buckets)
unfolding closest_nodes get_closest_nodes
closest_nodes_lem most now raw node base max t d k h a =
    rw (over_buckets-insert_all now raw node.buckets (Store.new base max)) (
      get_closest_nodes_lem now raw
        (record {
          waiting = [];
          entries = all_entries node.buckets;
          last_modify = 0;
          slot_limit = 0;
        })
        base max k h (IsKey-all_entries most node.my_id 0 node.buckets t.stand)
        (Distinct-all_entries most node.my_id 0 node.buckets t.stand d) a)
