-- ===== src/Dht/Node/Slots.antt =====
-- The calls of benliud_btkad/src/DHTNode.cpp that change every bucket: `SetSlotLimit` and `RefreshBucket`.
use benliud.Common.{ℕ, suc, ◌+◌, ◌≤◌, ◌≡◌, refl, ap, ◌∙◌, List, [], ◌∷◌, Option, none, some, length}
use benliud.Dht.Key.{Key}
use benliud.Dht.Entry.{KBucketEntry}
use benliud.Dht.Bucket.{KBucket, need_refresh}
use benliud.Dht.Bucket
use benliud.Dht.Bucket.Calls.{need_refresh-IsBounded, set_slot_limit-IsBounded}
use benliud.Dht.Bucket.Contents.{need_refresh-Holds}
use benliud.Dht.Node.{DhtNode, limit_slots, set_slot_limit}
use benliud.Dht.Node.Records.{refresh_from, refresh_bucket}
use benliud.Dht.Node.Table.{StandFrom, IsTable}

length-limit_slots :
    (limit : ℕ) (bs : List (Option KBucket)) → length (limit_slots limit bs) ≡ length bs
unfolding limit_slots
length-limit_slots limit [] = refl
length-limit_slots limit (none ∷ bs) = ap suc (length-limit_slots limit bs)
length-limit_slots limit (some b ∷ bs) = ap suc (length-limit_slots limit bs)

length-refresh_from :
    (now : ℕ) (raw : KBucketEntry → ℕ) (rand : ℕ → List ℕ) (my_id : Key) (i : ℕ)
    (bs : List (Option KBucket))
    → length (refresh_from now raw rand my_id i bs).0 ≡ length bs
unfolding refresh_from
length-refresh_from now raw rand my_id i [] = refl
length-refresh_from now raw rand my_id i (none ∷ bs) =
    ap suc (length-refresh_from now raw rand my_id (i + 1) bs)
length-refresh_from now raw rand my_id i (some b ∷ bs) =
    ap suc (length-refresh_from now raw rand my_id (i + 1) bs)

module _ (most : ℕ) where
  limit_slots-StandFrom :
      (limit : ℕ) (my_id : Key) (i : ℕ) (bs : List (Option KBucket))
      → limit ≤ most
      → StandFrom most my_id i bs
      → StandFrom most my_id i (limit_slots limit bs)
  unfolding limit_slots StandFrom Bucket.set_slot_limit
  limit_slots-StandFrom limit my_id i [] h s = tt
  limit_slots-StandFrom limit my_id i (none ∷ bs) h s =
      limit_slots-StandFrom limit my_id (suc i) bs h s
  limit_slots-StandFrom limit my_id i (some b ∷ bs) h s = (
    record {
      fits = set_slot_limit-IsBounded most b limit h s.0.fits;
      keys = record { entries = s.0.keys.entries; waiting = s.0.keys.waiting };
    },
    limit_slots-StandFrom limit my_id (suc i) bs h s.1,
  )

  pub set_slot_limit-IsTable :
      (node : DhtNode) (limit : ℕ)
      → limit ≤ most
      → IsTable most node
      → IsTable most (set_slot_limit node limit)
  unfolding set_slot_limit
  set_slot_limit-IsTable node limit h t = record {
    limit = h;
    sized = length-limit_slots limit node.buckets ∙ t.sized;
    stand = limit_slots-StandFrom limit node.my_id 0 node.buckets h t.stand;
  }

  refresh_from-StandFrom :
      (now : ℕ) (raw : KBucketEntry → ℕ) (rand : ℕ → List ℕ) (my_id : Key) (i j : ℕ)
      (bs : List (Option KBucket))
      → StandFrom most my_id i bs
      → StandFrom most my_id i (refresh_from now raw rand my_id j bs).0
  unfolding refresh_from StandFrom
  refresh_from-StandFrom now raw rand my_id i j [] s = tt
  refresh_from-StandFrom now raw rand my_id i j (none ∷ bs) s =
      refresh_from-StandFrom now raw rand my_id (suc i) (j + 1) bs s
  refresh_from-StandFrom now raw rand my_id i j (some b ∷ bs) s = (
    record {
      fits = need_refresh-IsBounded most now b s.0.fits;
      keys = need_refresh-Holds _ now b s.0.keys;
    },
    refresh_from-StandFrom now raw rand my_id (suc i) (j + 1) bs s.1,
  )

  pub refresh_bucket-IsTable :
      (now : ℕ) (raw : KBucketEntry → ℕ) (rand : ℕ → List ℕ) (node : DhtNode)
      → IsTable most node
      → IsTable most (refresh_bucket now raw rand node).0
  unfolding refresh_bucket
  refresh_bucket-IsTable now raw rand node t = record {
    limit = t.limit;
    sized = length-refresh_from now raw rand node.my_id 0 node.buckets ∙ t.sized;
    stand = refresh_from-StandFrom now raw rand node.my_id 0 0 node.buckets t.stand;
  }
