-- ===== src/Dht/Node/Table.antt =====
-- The routing table of benliud_btkad/src/DHTNode.cpp: every node stands in the bucket of its
-- distance, and no bucket has more than the most nodes.
use benliud.Common.{
  ℕ, zero, suc, ◌+◌, ◌≤◌, ◌≡◌, refl, ◌∙◌, subst, arith, List, [], ◌∷◌, Option, none, some, length,
  length-set, length-replicate, get_or, set, replicate, leb, Bool-cases, Option-cases, inl, inr,
}
use benliud.Dht.Key.{Key, IsKey, minus}
use benliud.Dht.Entry.{InetAddr, make_entry}
use benliud.Dht.Bucket.{KBucket}
use benliud.Dht.Bucket
use benliud.Dht.Bucket.Bounds.{IsBounded, update-Updated, update_no_response-IsBounded}
use benliud.Dht.Bucket.Calls.{is_slot_full-IsBounded}
use benliud.Dht.Bucket.Contents.{Holds, update-Holds, update_no_response-Holds, is_slot_full-Holds}
use benliud.Dht.Node.{
  DhtNode, new, bucket_from, find_bucket, bucket_at, put_bucket, bucket_for_update, update,
  update_no_response, is_slot_full,
}

module _ (most : ℕ) where
  -- Bucket `i` of a node: at most so many nodes and slots, and their keys are of 20 bytes and lead to it.
  pub record Stands (my_id : Key) (i : ℕ) (b : KBucket) : Type 0 where
    pub fits : IsBounded most b
    pub keys : Holds (λ k. IsKey k × (bucket_from 0 (minus k my_id) ≡ i)) b

  unfoldable pub StandFrom : Key → ℕ → List (Option KBucket) → Type 0
  StandFrom my_id i [] = Unit
  StandFrom my_id i (none ∷ bs) = StandFrom my_id (suc i) bs
  StandFrom my_id i (some b ∷ bs) = Stands my_id i b × StandFrom my_id (suc i) bs

  -- The table of a node.
  pub record IsTable (node : DhtNode) : Type 0 where
    pub limit : node.slot_limit ≤ most
    pub sized : length node.buckets ≡ 160
    pub stand : StandFrom node.my_id 0 node.buckets

  StandFrom-get_or :
      (my_id : Key) (i pos : ℕ) (bs : List (Option KBucket)) (b : KBucket)
      → StandFrom my_id i bs
      → get_or bs pos none ≡ some b
      → Stands my_id (i + pos) b
  unfolding StandFrom
  StandFrom-get_or my_id i pos [] b h e = absurd (cc)
  StandFrom-get_or my_id i zero (none ∷ bs) b h e = absurd (cc)
  StandFrom-get_or my_id i zero (some c ∷ bs) b h e =
      subst (Stands my_id (i + 0)) {x = c} {y = b} (cc)
        (subst (λ n. Stands my_id n c) (omega arith) h.0)
  StandFrom-get_or my_id i (suc pos) (none ∷ bs) b h e =
      subst (λ n. Stands my_id n b) (omega arith) (StandFrom-get_or my_id (suc i) pos bs b h e)
  StandFrom-get_or my_id i (suc pos) (some c ∷ bs) b h e =
      subst (λ n. Stands my_id n b) (omega arith) (StandFrom-get_or my_id (suc i) pos bs b h.1 e)

  StandFrom-set :
      (my_id : Key) (i pos : ℕ) (bs : List (Option KBucket)) (b : KBucket)
      → StandFrom my_id i bs
      → Stands my_id (i + pos) b
      → StandFrom my_id i (set bs pos (some b))
  unfolding StandFrom
  StandFrom-set my_id i pos [] b h s = tt
  StandFrom-set my_id i zero (none ∷ bs) b h s = (subst (λ n. Stands my_id n b) (omega arith) s, h)
  StandFrom-set my_id i zero (some c ∷ bs) b h s =
      (subst (λ n. Stands my_id n b) (omega arith) s, h.1)
  StandFrom-set my_id i (suc pos) (none ∷ bs) b h s =
      StandFrom-set my_id (suc i) pos bs b h (subst (λ n. Stands my_id n b) (omega arith) s)
  StandFrom-set my_id i (suc pos) (some c ∷ bs) b h s = (
    h.0,
    StandFrom-set my_id (suc i) pos bs b h.1 (subst (λ n. Stands my_id n b) (omega arith) s),
  )

  pub put_bucket-IsTable :
      (node : DhtNode) (pos : ℕ) (b : KBucket)
      → IsTable node
      → Stands node.my_id pos b
      → IsTable (put_bucket node pos b)
  unfolding put_bucket
  put_bucket-IsTable node pos b t s = record {
    limit = t.limit;
    sized = length-set node.buckets pos (some b) ∙ t.sized;
    stand =
        StandFrom-set node.my_id 0 pos node.buckets b t.stand
          (subst (λ n. Stands node.my_id n b) (omega arith) s);
  }

  bucket_at-Stands :
      (node : DhtNode) (pos : ℕ) (b : KBucket)
      → IsTable node
      → bucket_at node pos ≡ some b
      → Stands node.my_id pos b
  unfolding bucket_at
  bucket_at-Stands node pos b t e =
      subst (λ n. Stands node.my_id n b) (omega arith)
        (StandFrom-get_or node.my_id 0 pos node.buckets b t.stand e)

  fresh-Stands :
      (now limit pos : ℕ) (my_id : Key)
      → limit ≤ most
      → Stands my_id pos (Bucket.set_slot_limit (Bucket.new now) limit)
  unfolding Bucket.set_slot_limit Bucket.new
  fresh-Stands now limit pos my_id h = record {
    fits = record { fits = omega arith; limit = h };
    keys = record { entries = tt; waiting = tt };
  }

  bucket_for_update-Stands :
      (now : ℕ) (node : DhtNode) (pos : ℕ)
      → IsTable node
      → Stands node.my_id pos (bucket_for_update now node pos)
  unfolding bucket_for_update
  bucket_for_update-Stands now node pos t = elim (Option-cases (bucket_at node pos)) [
    | inl e ↦ rw (e, bucket_for_update) (fresh-Stands now node.slot_limit pos node.my_id t.limit)
    | inr (b, e) ↦ rw (e, bucket_for_update) (bucket_at-Stands node pos b t e)
  ]

  -- `Update` of a node with a key of 20 bytes keeps the table.
  pub update-IsTable :
      (now raw : ℕ) (node : DhtNode) (addr : InetAddr) (key : Key)
      → IsKey key
      → IsTable node
      → IsTable (update now raw node addr key).0
  unfolding update find_bucket make_entry
  update-IsTable now raw node addr key k t = elim (Bool-cases (leb 160 (find_bucket node key))) [
    | inl e ↦ rw (e, update) t
    | inr e ↦
        let s = bucket_for_update-Stands now node (find_bucket node key) t in
        rw (e, update)
          (put_bucket-IsTable node (find_bucket node key) _ t (record {
            fits =
                (let u = update-Updated most now raw _ (make_entry addr key now raw) s.fits in
                  record { fits = u.bounded; limit = omega (arith, u.limit, s.fits.limit) });
            keys = update-Holds _ now raw _ (make_entry addr key now raw) (k, refl) s.keys;
          }))
  ]

  pub update_no_response-IsTable :
      (now raw : ℕ) (node : DhtNode) (addr : InetAddr) (key : Key)
      → IsTable node
      → IsTable (update_no_response now raw node addr key)
  unfolding update_no_response
  update_no_response-IsTable now raw node addr key t =
      elim (Bool-cases (leb 160 (find_bucket node key))) [
        | inl e ↦ rw (e, update_no_response) t
        | inr e ↦ elim (Option-cases (bucket_at node (find_bucket node key))) [
          | inl missing ↦ rw (e, missing, update_no_response) t
          | inr (b, found) ↦
              let s = bucket_at-Stands node (find_bucket node key) b t found in
              rw (e, found, update_no_response)
                (put_bucket-IsTable node (find_bucket node key) _ t (record {
                  fits =
                      update_no_response-IsBounded most now raw b (make_entry addr key now raw)
                        s.fits;
                  keys = update_no_response-Holds _ now raw b (make_entry addr key now raw) s.keys;
                }))
        ]
      ]

  pub is_slot_full-IsTable :
      (now : ℕ) (node : DhtNode) (key : Key) → IsTable node → IsTable (is_slot_full now node key).0
  unfolding is_slot_full
  is_slot_full-IsTable now node key t = elim (Bool-cases (leb 160 (find_bucket node key))) [
    | inl e ↦ rw (e, is_slot_full) t
    | inr e ↦ elim (Option-cases (bucket_at node (find_bucket node key))) [
      | inl missing ↦ rw (e, missing, is_slot_full) t
      | inr (b, found) ↦
          let s = bucket_at-Stands node (find_bucket node key) b t found in
          rw (e, found, is_slot_full)
            (put_bucket-IsTable node (find_bucket node key) _ t (record {
              fits = is_slot_full-IsBounded most now b s.fits;
              keys = is_slot_full-Holds _ now b s.keys;
            }))
    ]
  ]

  StandFrom-replicate : (my_id : Key) (i n : ℕ) → StandFrom my_id i (replicate n none)
  unfolding StandFrom
  StandFrom-replicate my_id i zero = tt
  StandFrom-replicate my_id i (suc n) = StandFrom-replicate my_id (suc i) n

  pub new-IsTable : (my_id : Key) → 6 ≤ most → IsTable (new my_id)
  unfolding new
  new-IsTable my_id six = record {
    limit = six;
    sized = length-replicate {A = Option KBucket} 160 none;
    stand = StandFrom-replicate my_id 0 160;
  }
