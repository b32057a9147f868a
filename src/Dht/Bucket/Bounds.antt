-- ===== src/Dht/Bucket/Bounds.antt =====
-- How many entries a bucket of KBucket.cpp holds, and what `Update` does on each of its branches.
use benliud.Common.{
  ℕ, ◌+◌, ◌≤◌, ◌≡◌, ◌⊎◌, refl, ap, subst, true, false, arith, List, [], ◌∷◌, ◌++◌, length,
  length-append, All, leb, ◌==◌, if◌then◌else◌, Bool-cases, Option-cases, inl, inr,
}
use benliud.Common.Search.{
  find_first, remove_first, keep, find_first-none, length-remove_first, length-update_first,
  keep-All,
}
use benliud.Dht.Entry.{KBucketEntry, copy, same_key, is_questionable, is_bad}
use benliud.Dht.Bucket.{
  KBucket, clean_bad_entry, check_questionable_and_replace, push_back, update_full, update,
  replace_by_waiting, update_no_response,
}

-- At most so many entries and slots.
pub record IsBounded (most : ℕ) (b : KBucket) : Type 0 where
  pub fits : length b.entries ≤ most
  pub limit : b.slot_limit ≤ most

pub List-cases {ℓ} :
    {A : Type ℓ} (xs : List A) → (xs ≡ []) ⊎ ((x : A) × (ys : List A) × (xs ≡ x ∷ ys))
List-cases [] = inl refl
List-cases (x ∷ ys) = inr (x, ys, refl)

-- How `CleanBadEntry` ends.
pub clean_bad_entry_lem :
    (now : ℕ) (b : KBucket)
    → ((clean_bad_entry now b ≡ (b, false)) × All (λ e. is_bad e ≡ false) b.entries)
      ⊎ (((clean_bad_entry now b).1 ≡ true)
          × ((clean_bad_entry now b).0
              ≡ record b { entries = remove_first is_bad b.entries; last_modify = now })
          × (length (remove_first is_bad b.entries) + 1 ≡ length b.entries))
unfolding clean_bad_entry
clean_bad_entry_lem now b = elim (Option-cases (find_first is_bad b.entries)) [
  | inl e ↦ inl (rw (e, clean_bad_entry), find_first-none is_bad b.entries e)
  | inr (x, e) ↦
      inr
        (rw (e, clean_bad_entry), rw (e, clean_bad_entry), length-remove_first is_bad b.entries x e)
]

-- `CheckQuestionableAndReplace` leaves the entries alone, pings questionable entries only, and
-- lets the node wait exactly if it pings one.
pub check_questionable_lem :
    (now raw : ℕ) (b : KBucket) (node : KBucketEntry)
    → ((check_questionable_and_replace now raw b node).0.entries ≡ b.entries)
      × ((check_questionable_and_replace now raw b node).0.slot_limit ≡ b.slot_limit)
      × All (λ e. is_questionable now e ≡ true) (check_questionable_and_replace now raw b node).1
      × ((check_questionable_and_replace now raw b node).0.waiting ≡ (
          if length (check_questionable_and_replace now raw b node).1 == 0
          then b.waiting
          else b.waiting ++ copy now raw node ∷ []))
unfolding check_questionable_and_replace
check_questionable_lem now raw b node = elim (List-cases (keep (is_questionable now) b.entries)) [
  | inl e ↦ rw (e, check_questionable_and_replace) (refl, refl, tt, refl)
  | inr (x, ys, e) ↦
      rw (e, check_questionable_and_replace)
        (
          refl,
          refl,
          subst (All (λ e. is_questionable now e ≡ true)) e
              (keep-All (is_questionable now) b.entries),
          ground arith,
        )
]

-- What `Update` leaves of a bucket: never more than the most entries, the same number of slots, and
-- the node as the last entry, stamped with the present tick; unless the bucket is full of nodes
-- that are all other nodes and none of them bad, when its entries stay as they are.
pub record Updated (most now raw : ℕ) (b : KBucket) (node : KBucketEntry) (c : KBucket)
    : Type 0 where
  pub bounded : length c.entries ≤ most
  pub limit : c.slot_limit ≡ b.slot_limit
  pub placed :
      ((xs : List KBucketEntry) × (c.entries ≡ xs ++ copy now raw node ∷ []))
      ⊎ ((c.entries ≡ b.entries)
          × (b.slot_limit ≤ length b.entries)
          × All (λ e. is_bad e ≡ false) b.entries
          × All (λ e. same_key e node ≡ false) b.entries)

update_full-Updated :
    (most now raw : ℕ) (b : KBucket) (node : KBucketEntry)
    → IsBounded most b
    → b.slot_limit ≤ length b.entries
    → All (λ e. same_key e node ≡ false) b.entries
    → Updated most now raw b node (update_full now raw b node).0
unfolding update_full push_back
update_full-Updated most now raw b node v full absent = elim (clean_bad_entry_lem now b) [
  | inl (e, good) ↦
      let q = check_questionable_lem now raw b node in
      rw e (record {
        bounded = omega (arith, ap {A = List KBucketEntry} length q.0, q.1, v.fits);
        limit = q.1;
        placed = inr (q.0, full, good, absent);
      })
  | inr (found, e, n) ↦
      rw (found, e)
        (record {
          bounded = omega (
            arith,
            length-append (remove_first is_bad b.entries) (copy now raw node ∷ []),
            n,
            v.fits,
          );
          limit = refl;
          placed = inl (remove_first is_bad b.entries, refl);
        })
]

-- `Update` keeps a bucket within the bound so, and puts the node at its end with the
-- present tick; only a full bucket of other nodes, none of them bad, keeps its entries as they are.
pub update-Updated :
    (most now raw : ℕ) (b : KBucket) (node : KBucketEntry)
    → IsBounded most b
    → Updated most now raw b node (update now raw b node).0
unfolding update push_back
update-Updated most now raw b node v =
    elim (Option-cases (find_first (λ e. same_key e node) b.entries)) [
      | inr (x, e) ↦
          rw (e, update)
            (record {
              bounded = omega (
                arith,
                length-append (remove_first (λ e. same_key e node) b.entries)
                    (copy now raw node ∷ []),
                length-remove_first (λ e. same_key e node) b.entries x e,
                v.fits,
              );
              limit = refl;
              placed = inl (remove_first (λ e. same_key e node) b.entries, refl);
            })
      | inl e ↦ elim (Bool-cases (leb b.slot_limit (length b.entries))) [
        | inl full ↦
            rw (e, full, update)
              (update_full-Updated most now raw b node v (ground arith)
                (find_first-none (λ e. same_key e node) b.entries e))
        | inr room ↦
            rw (e, room, update)
              (record {
                bounded = ground (arith, v.limit, length-append b.entries (copy now raw node ∷ []));
                limit = refl;
                placed = inl (b.entries, refl);
              })
      ]
    ]

-- So do the other operations that change the entries.
pub update_no_response-IsBounded :
    (most now raw : ℕ) (b : KBucket) (node : KBucketEntry)
    → IsBounded most b
    → IsBounded most (update_no_response now raw b node)
unfolding update_no_response replace_by_waiting push_back
update_no_response-IsBounded most now raw b node v =
    elim (Option-cases (find_first (λ e. same_key e node) b.entries)) [
      | inl e ↦ rw (e, update_no_response) v
      | inr (x, e) ↦ elim (List-cases b.waiting) [
        | inl w ↦
            rw (e, update_no_response)
              (rw (w, replace_by_waiting)
                (record { fits = rw length-update_first v.fits; limit = v.limit }))
        | inr (y, ys, w) ↦
            rw (e, update_no_response)
              (rw (w, replace_by_waiting)
                (record {
                  fits = omega (
                    arith,
                    length-append (remove_first (λ e. same_key e node) b.entries)
                        (copy now raw y ∷ []),
                    length-remove_first (λ e. same_key e node) b.entries x e,
                    v.fits,
                  );
                  limit = v.limit;
                }))
      ]
    ]
