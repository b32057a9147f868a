-- ===== src/Dht/Bucket/Keys.antt =====
-- The keys in a bucket of KBucket.cpp: `Update` never enters a key twice, `UpdateNoResponse` can.
use benliud.Common.{
  ℕ, ◌+◌, ◌≤◌, ◌≡◌, refl, ap, subst, Bool, true, false, bit, length-append, arith, List, [], ◌∷◌,
  ◌++◌, none, some, length, All, All-append, leb, Bool-cases, Option-cases, inl, inr,
}
use benliud.Common.Search.{
  count, length-remove_first, find_first, remove_first, find_first-none, remove_first-All,
}
use benliud.Dht.Key.{Key, eq}
use benliud.Dht.Key.Order.{eq_iff}
use benliud.Dht.Entry.{KBucketEntry, copy, same_key, is_bad}
use benliud.Dht.Bucket.{
  KBucket, push_back, update_full, update, replace_by_waiting, update_no_response,
}
use benliud.Dht.Bucket.Bounds.{clean_bad_entry_lem, check_questionable_lem}

-- No entry has the key.
abbrev pub Absent : Key → List KBucketEntry → Type 0
Absent k = All (λ e. eq e.key k ≡ false)

-- No key stands in two entries.
abbrev pub Distinct : List KBucketEntry → Type 0
Distinct [] = Unit
Distinct (e ∷ es) = Absent e.key es × Distinct es

eq_sym : (k l : Key) → eq k l ≡ false → eq l k ≡ false
eq_sym k l h = ground (arith, eq_iff k l, eq_iff l k)

Distinct-snoc :
    (es : List KBucketEntry) (x : KBucketEntry)
    → Distinct es
    → Absent x.key es
    → Distinct (es ++ x ∷ [])
Distinct-snoc [] x d a = (tt, tt)
Distinct-snoc (e ∷ es) x d a = (
  All-append (λ y. eq y.key e.key ≡ false) es (x ∷ []) d.0 (eq_sym e.key x.key a.0, tt),
  Distinct-snoc es x d.1 a.1,
)

remove_first-Distinct :
    (test : KBucketEntry → Bool) (es : List KBucketEntry)
    → Distinct es
    → Distinct (remove_first test es)
unfolding remove_first
remove_first-Distinct test [] d = tt
remove_first-Distinct test (e ∷ es) d = elim (Bool-cases (test e)) [
  | inl h ↦ rw h d.1
  | inr h ↦ rw h (
    remove_first-All (λ y. eq y.key e.key ≡ false) test es d.0,
    remove_first-Distinct test es d.1,
  )
]

-- In a bucket of distinct keys the removed key is gone.
remove_first-Absent :
    (node : KBucketEntry) (es : List KBucketEntry)
    → Distinct es
    → Absent node.key (remove_first (λ e. same_key e node) es)
unfolding remove_first same_key
remove_first-Absent node [] d = tt
remove_first-Absent node (e ∷ es) d = elim (Bool-cases (eq e.key node.key)) [
  | inl h ↦ rw h (subst (λ k. Absent k es) ((eq_iff e.key node.key).0 h) d.0)
  | inr h ↦ rw h (h, remove_first-Absent node es d.1)
]

Absent-of_none :
    (node : KBucketEntry) (es : List KBucketEntry)
    → find_first (λ e. same_key e node) es ≡ none
    → Absent node.key es
unfolding same_key
Absent-of_none node es h = find_first-none (λ e. eq e.key node.key) es h

push_back-Distinct :
    (now raw : ℕ) (b : KBucket) (node : KBucketEntry)
    → Distinct b.entries
    → Absent node.key b.entries
    → Distinct (push_back now raw b node).entries
unfolding push_back copy
push_back-Distinct now raw b node d a = Distinct-snoc b.entries (copy now raw node) d a

update_full-Distinct :
    (now raw : ℕ) (b : KBucket) (node : KBucketEntry)
    → Distinct b.entries
    → Absent node.key b.entries
    → Distinct (update_full now raw b node).0.entries
unfolding update_full
update_full-Distinct now raw b node d a = elim (clean_bad_entry_lem now b) [
  | inl (e, good) ↦ rw e (rw (check_questionable_lem now raw b node).0 d)
  | inr (found, e, n) ↦
      rw (found, e)
        (push_back-Distinct now raw _ node (remove_first-Distinct is_bad b.entries d)
          (remove_first-All (λ y. eq y.key node.key ≡ false) is_bad b.entries a))
]

-- `Update` keeps the keys of a bucket distinct.
update-Distinct :
    (now raw : ℕ) (b : KBucket) (node : KBucketEntry)
    → Distinct b.entries
    → Distinct (update now raw b node).0.entries
unfolding update
update-Distinct now raw b node d =
    elim (Option-cases (find_first (λ e. same_key e node) b.entries)) [
      | inr (x, e) ↦
          rw (e, update)
            (push_back-Distinct now raw _ node (remove_first-Distinct _ b.entries d)
              (remove_first-Absent node b.entries d))
      | inl e ↦ elim (Bool-cases (leb b.slot_limit (length b.entries))) [
        | inl full ↦
            rw (e, full, update)
              (update_full-Distinct now raw b node d (Absent-of_none node b.entries e))
        | inr room ↦
            rw (e, room, update)
              (push_back-Distinct now raw _ node d (Absent-of_none node b.entries e))
      ]
    ]

-- A found key is counted.
counted_once :
    (k : Key) (es : List KBucketEntry) (x : KBucketEntry)
    → find_first (λ e. eq e.key k) es ≡ some x
    → 1 ≤ count (λ e. eq e.key k) es
unfolding find_first count
counted_once k [] x h = absurd (cc)
counted_once k (e ∷ es) x h = ground (arith, counted_once k es x)

count-snoc :
    (test : KBucketEntry → Bool) (es : List KBucketEntry) (x : KBucketEntry)
    → count test (es ++ x ∷ []) ≡ count test es + bit (test x)
unfolding count
count-snoc test [] x = omega arith
count-snoc test (e ∷ es) x = omega (arith, count-snoc test es x)

replaced_entries :
    (now raw : ℕ) (b : KBucket) (node x w : KBucketEntry) (ws : List KBucketEntry)
    → find_first (λ e. same_key e node) b.entries ≡ some x
    → b.waiting ≡ w ∷ ws
    → (update_no_response now raw b node).entries
      ≡ remove_first (λ e. same_key e node) b.entries ++ copy now raw w ∷ []
unfolding update_no_response replace_by_waiting push_back
replaced_entries now raw b node x w ws found waits =
    rw (found, update_no_response) (rw (waits, replace_by_waiting) refl)

same_as_copy : (now raw : ℕ) (w : KBucketEntry) → eq (copy now raw w).key w.key ≡ true
unfolding copy
same_as_copy now raw w = (eq_iff w.key w.key).1 refl

-- Where another entry has the key of the node that has waited longest, `UpdateNoResponse` puts this
-- node all the same in the place of the one that did not answer: the bucket has as many entries as
-- before, and two of them at least have that key.
pub update_no_response-duplicate :
    (now raw : ℕ) (b : KBucket) (node x y w : KBucketEntry) (ws : List KBucketEntry)
    → find_first (λ e. same_key e node) b.entries ≡ some x
    → b.waiting ≡ w ∷ ws
    → find_first (λ e. eq e.key w.key) (remove_first (λ e. same_key e node) b.entries) ≡ some y
    → (length (update_no_response now raw b node).entries ≡ length b.entries)
      × (2 ≤ count (λ e. eq e.key w.key) (update_no_response now raw b node).entries)
update_no_response-duplicate now raw b node x y w ws found waits twice =
    let left = remove_first (λ e. same_key e node) b.entries in
    let same = replaced_entries now raw b node x w ws found waits in
    let test = λ (e : KBucketEntry). eq e.key w.key in
    (
      omega (
        arith,
        ap {A = List KBucketEntry} length same,
        length-append left (copy now raw w ∷ []),
        length-remove_first (λ e. same_key e node) b.entries x found,
      ),
      omega (
        arith,
        ap {A = List KBucketEntry} (count test) same,
        count-snoc test left (copy now raw w),
        counted_once w.key left y twice,
        ap bit (same_as_copy now raw w),
      ),
    )
