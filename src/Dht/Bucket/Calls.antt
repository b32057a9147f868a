-- ===== src/Dht/Bucket/Calls.antt =====
-- Any sequence of calls on a bucket of KBucket.cpp, as the node and its timer make them.
use benliud.Common.{
  ℕ, ◌≤◌, arith, Bool, List, [], ◌∷◌, length, ltb, if_cases, All, Bool-cases, inl, inr,
}
use benliud.Dht.Entry.{KBucketEntry}
use benliud.Dht.Bucket.{
  KBucket, new, update, update_no_response, need_refresh, is_slot_full, set_slot_limit,
}
use benliud.Dht.Bucket.Bounds.{
  IsBounded, update-Updated, update_no_response-IsBounded, clean_bad_entry_lem,
}

-- The calls that change a bucket, each with its tick, and what the copy of an entry holds.
pub data Call : Type 0 where
  updates : (now raw : ℕ) (node : KBucketEntry) → Call
  fails : (now raw : ℕ) (node : KBucketEntry) → Call
  refreshes : (now : ℕ) → Call
  asks_slot : (now : ℕ) → Call
  limits : (limit : ℕ) → Call

pub step : KBucket → Call → KBucket
step b (updates now raw node) = (update now raw b node).0
step b (fails now raw node) = update_no_response now raw b node
step b (refreshes now) = (need_refresh now b).0
step b (asks_slot now) = (is_slot_full now b).0
step b (limits limit) = set_slot_limit b limit

pub run : KBucket → List Call → KBucket
run b [] = b
run b (c ∷ cs) = run (step b c) cs

-- The limits that are set are at most so many.
abbrev pub IsWithin : ℕ → Call → Type 0
IsWithin most (limits limit) = limit ≤ most
IsWithin most _ = Unit

module _ (most : ℕ) where
  pub is_slot_full-IsBounded :
      (now : ℕ) (b : KBucket) → IsBounded most b → IsBounded most (is_slot_full now b).0
  unfolding is_slot_full
  is_slot_full-IsBounded now b v = elim (Bool-cases (ltb (length b.entries) b.slot_limit)) [
    | inl e ↦ rw e v
    | inr e ↦ rw e (elim (clean_bad_entry_lem now b) [
      | inl (same, good) ↦ rw same v
      | inr (found, cleaned, fewer) ↦
          rw cleaned (record { fits = omega (arith, fewer, v.fits); limit = v.limit })
    ])
  ]

  pub need_refresh-IsBounded :
      (now : ℕ) (b : KBucket) → IsBounded most b → IsBounded most (need_refresh now b).0
  unfolding need_refresh
  need_refresh-IsBounded now b v =
      if_cases (λ (x : KBucket × Bool). IsBounded most x.0) (ltb now b.last_modify) _ _
        (λ _. record { fits = v.fits; limit = v.limit })
        (λ _. record { fits = v.fits; limit = v.limit })

  pub set_slot_limit-IsBounded :
      (b : KBucket) (limit : ℕ)
      → limit ≤ most
      → IsBounded most b
      → IsBounded most (set_slot_limit b limit)
  unfolding set_slot_limit
  set_slot_limit-IsBounded b limit h v = record { fits = v.fits; limit = h }

  step-IsBounded :
      (b : KBucket) (c : Call) → IsWithin most c → IsBounded most b → IsBounded most (step b c)
  unfolding step
  step-IsBounded b (updates now raw node) h v =
      let u = update-Updated most now raw b node v in
      record { fits = u.bounded; limit = omega (arith, u.limit, v.limit) }
  step-IsBounded b (fails now raw node) h v = update_no_response-IsBounded most now raw b node v
  step-IsBounded b (refreshes now) h v = need_refresh-IsBounded now b v
  step-IsBounded b (asks_slot now) h v = is_slot_full-IsBounded now b v
  step-IsBounded b (limits limit) h v = set_slot_limit-IsBounded b limit h v

  run-IsBounded_from :
      (cs : List Call) (b : KBucket)
      → All (IsWithin most) cs
      → IsBounded most b
      → IsBounded most (run b cs)
  unfolding run
  run-IsBounded_from [] b h v = v
  run-IsBounded_from (c ∷ cs) b h v =
      run-IsBounded_from cs (step b c) h.1 (step-IsBounded b c h.0 v)

-- After any calls on a new bucket, `SetSlotLimit` among them, it has no more entries than the largest
-- of its limits: those that were set, and the 6 slots that it starts with.
pub run-IsBounded :
    (most now : ℕ) (cs : List Call)
    → 6 ≤ most
    → All (IsWithin most) cs
    → IsBounded most (run (new now) cs)
unfolding new
run-IsBounded most now cs six h =
    run-IsBounded_from most cs (new now) h (record { fits = omega arith; limit = six })
