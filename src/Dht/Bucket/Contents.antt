-- ===== src/Dht/Bucket/Contents.antt =====
-- What holds of every key in a bucket of KBucket.cpp, those of waiting nodes too, holds after each
-- operation, if it holds of the key that is entered.
use benliud.Common.{
  ℕ, Bool, if_cases, subst, List, [], ◌∷◌, ◌++◌, length, All, All-append, leb, ltb, Bool-cases,
  Option-cases, inl, inr,
}
use benliud.Common.Search.{find_first, remove_first, keep, remove_first-All, update_first-All}
use benliud.Dht.Key.{Key}
use benliud.Dht.Entry.{KBucketEntry, copy, same_key, is_bad, is_questionable, request_timeout}
use benliud.Dht.Bucket.{
  KBucket, clean_bad_entry, check_questionable_and_replace, push_back, update_full, update,
  replace_by_waiting, update_no_response, is_slot_full, need_refresh,
}
use benliud.Dht.Bucket.Bounds.{clean_bad_entry_lem, List-cases}

pub record Holds (P : Key → Type 0) (b : KBucket) : Type 0 where
  pub entries : All (λ e. P e.key) b.entries
  pub waiting : All (λ e. P e.key) b.waiting

module _ (P : Key → Type 0) where
  snoc :
      (now raw : ℕ) (es : List KBucketEntry) (node : KBucketEntry)
      → P node.key
      → All (λ e. P e.key) es
      → All (λ e. P e.key) (es ++ copy now raw node ∷ [])
  unfolding copy
  snoc now raw es node p h = All-append (λ e. P e.key) es (copy now raw node ∷ []) h (p, tt)

  push_back-Holds :
      (now raw : ℕ) (b : KBucket) (node : KBucketEntry)
      → P node.key
      → Holds P b
      → Holds P (push_back now raw b node)
  unfolding push_back
  push_back-Holds now raw b node p h = record {
    entries = snoc now raw b.entries node p h.entries;
    waiting = h.waiting;
  }

  clean_bad_entry-Holds : (now : ℕ) (b : KBucket) → Holds P b → Holds P (clean_bad_entry now b).0
  clean_bad_entry-Holds now b h = elim (clean_bad_entry_lem now b) [
    | inl (same, _) ↦ rw same h
    | inr (_, e, _) ↦ rw e (record {
      entries = remove_first-All (λ x. P x.key) is_bad b.entries h.entries;
      waiting = h.waiting;
    })
  ]

  check_questionable-Holds :
      (now raw : ℕ) (b : KBucket) (node : KBucketEntry)
      → P node.key
      → Holds P b
      → Holds P (check_questionable_and_replace now raw b node).0
  unfolding check_questionable_and_replace
  check_questionable-Holds now raw b node p h =
      elim (List-cases (keep (is_questionable now) b.entries)) [
        | inl e ↦ rw (e, check_questionable_and_replace) h
        | inr (x, ys, e) ↦
            rw (e, check_questionable_and_replace)
              (record { entries = h.entries; waiting = snoc now raw b.waiting node p h.waiting })
      ]

  update_full-Holds :
      (now raw : ℕ) (b : KBucket) (node : KBucketEntry)
      → P node.key
      → Holds P b
      → Holds P (update_full now raw b node).0
  unfolding update_full
  update_full-Holds now raw b node p h = elim (Bool-cases (clean_bad_entry now b).1) [
    | inl e ↦
        rw e
          (push_back-Holds now raw (clean_bad_entry now b).0 node p (clean_bad_entry-Holds now b h))
    | inr e ↦ rw e (check_questionable-Holds now raw b node p h)
  ]

  pub update-Holds :
      (now raw : ℕ) (b : KBucket) (node : KBucketEntry)
      → P node.key
      → Holds P b
      → Holds P (update now raw b node).0
  unfolding update
  update-Holds now raw b node p h =
      elim (Option-cases (find_first (λ e. same_key e node) b.entries)) [
        | inr (x, e) ↦
            rw (e, update)
              (push_back-Holds now raw _ node p (record {
                entries =
                    remove_first-All (λ x. P x.key) (λ e. same_key e node) b.entries h.entries;
                waiting = h.waiting;
              }))
        | inl e ↦ elim (Bool-cases (leb b.slot_limit (length b.entries))) [
          | inl full ↦ rw (e, full, update) (update_full-Holds now raw b node p h)
          | inr room ↦
              rw (e, room, update)
                (push_back-Holds now raw (record b { last_modify = now }) node p
                  (record { entries = h.entries; waiting = h.waiting }))
        ]
      ]

  pub update_no_response-Holds :
      (now raw : ℕ) (b : KBucket) (node : KBucketEntry)
      → Holds P b
      → Holds P (update_no_response now raw b node)
  unfolding update_no_response replace_by_waiting push_back request_timeout
  update_no_response-Holds now raw b node h =
      elim (Option-cases (find_first (λ e. same_key e node) b.entries)) [
        | inl e ↦ rw (e, update_no_response) h
        | inr (x, e) ↦ elim (List-cases b.waiting) [
          | inl w ↦
              rw (e, update_no_response)
                (rw (w, replace_by_waiting)
                  (record {
                    entries =
                        update_first-All (λ x. P x.key) (λ e. same_key e node) request_timeout
                          b.entries (λ x t p. p) h.entries;
                    waiting = h.waiting;
                  }))
          | inr (y, ys, w) ↦
              let held = subst (All (λ x. P x.key)) w h.waiting in
              rw (e, update_no_response)
                (rw (w, replace_by_waiting)
                  (record {
                    entries =
                        snoc now raw (remove_first (λ e. same_key e node) b.entries) y held.0 (
                          remove_first-All (λ x. P x.key) (λ e. same_key e node) b.entries
                            h.entries);
                    waiting = held.1;
                  }))
        ]
      ]

  pub is_slot_full-Holds : (now : ℕ) (b : KBucket) → Holds P b → Holds P (is_slot_full now b).0
  unfolding is_slot_full
  is_slot_full-Holds now b h = elim (Bool-cases (ltb (length b.entries) b.slot_limit)) [
    | inl e ↦ rw e h
    | inr e ↦ rw e (clean_bad_entry-Holds now b h)
  ]

  kept :
      (test : KBucketEntry → Bool) (es : List KBucketEntry)
      → All (λ e. P e.key) es
      → All (λ e. P e.key) (keep test es)
  unfolding keep
  kept test [] h = tt
  kept test (e ∷ es) h =
      if_cases (All (λ e. P e.key)) (test e) (e ∷ keep test es) (keep test es)
        (λ _. (h.0, kept test es h.1)) (λ _. kept test es h.1)

  pub need_refresh-Holds : (now : ℕ) (b : KBucket) → Holds P b → Holds P (need_refresh now b).0
  unfolding need_refresh
  need_refresh-Holds now b h =
      if_cases (λ (x : KBucket × Bool). Holds P x.0) (ltb now b.last_modify) _ _
        (λ _. record { entries = h.entries; waiting = h.waiting })
        (λ _. record { entries = h.entries; waiting = kept _ b.waiting h.waiting })
