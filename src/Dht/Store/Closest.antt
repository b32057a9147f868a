-- ===== src/Dht/Store/Closest.antt =====
-- `InsertNode` of ClosestNodeStore.cpp keeps the nodes nearest to the base point.
use benliud.Common.{
  ℕ, ◌+◌, ◌≡◌, refl, ap, sym, ◌∙◌, subst, true, false, not, ◌&&◌, ◌||◌, arith, Option, none, some,
  length, Bool-cases, inl, inr,
}
use benliud.Dht.Key.{Key, IsKey, lt, eq}
use benliud.Dht.Key.Order.{eq_iff, eq_refl, lt_trans, lt_irrefl, lt_total}
use benliud.Dht.Key.Distance.{minus-IsKey}
use benliud.Dht.Entry.{KBucketEntry, copy}
use benliud.Dht.Store.{EntryMap, ClosestNodeStore, last_key, insert_full, insert_node}
use benliud.Dht.Store.Map.{has, IsLast, last_key-IsLast, lt_ne}
use benliud.Dht.Store.Outcome.{
  distance, IsValid, Settled, Outcome, added, displaced, too_far, insert_node-Outcome,
}

Outcome-IsValid : (s t : ClosestNodeStore) (d : Key) → Outcome s d t → IsValid s → IsValid t
Outcome-IsValid s t d (added room m b sorted has' len) v = record {
  base = subst IsKey (sym b) v.base;
  some_room = omega (arith, m, v.some_room);
  sorted = sorted;
  bounded = ground (arith, len, m);
}
Outcome-IsValid s t d (displaced k l full m b near sorted has' len short) v = record {
  base = subst IsKey (sym b) v.base;
  some_room = omega (arith, m, v.some_room);
  sorted = sorted;
  bounded = ground (arith, len, short, m);
}
Outcome-IsValid s t d (too_far k l full far same) v = subst IsValid (sym same) v

Settled-new : (s t : ClosestNodeStore) (d : Key) → length d ≡ 20 → Outcome s d t → Settled t d
Settled-new s t d h (added room m b sorted has' len) = inl (ground (arith, has' d, eq_refl d))
Settled-new s t d h (displaced k l full m b near sorted has' len short) =
    inl (ground (arith, has' d, eq_refl d, lt_ne d k near))
Settled-new s t d h (too_far k l full far same) =
    subst (λ u. Settled u d) (sym same)
      (elim (lt_total d k (h ∙ sym l.sized)) [
        | inl near ↦ absurd (cc)
        | inr (inl e) ↦ inl (subst (λ x. has x s.result_map ≡ true) (sym e) l.inside)
        | inr (inr beyond) ↦ inr (
          full,
          λ x i. elim (l.greatest x i) [
            | inl e ↦ subst (λ y. lt y d ≡ true) (sym e) beyond
            | inr below ↦ lt_trans x k d below beyond
          ],
        )
      ])

-- What is in the store after a node displaced the farthest one lies before the farthest.
below_displaced :
    (s t : ClosestNodeStore) (d k x : Key)
    → IsLast s.result_map k
    → lt d k ≡ true
    → (has x t.result_map ≡ (not (eq k x) && (eq d x || has x s.result_map)))
    → has x t.result_map ≡ true
    → lt x k ≡ true
below_displaced s t d k x l near has' i = elim (Bool-cases (eq d x)) [
  | inl e ↦ subst (λ y. lt y k ≡ true) ((eq_iff d x).0 e) near
  | inr e ↦ elim (l.greatest x (ground arith)) [
    | inl same ↦ absurd (ground (arith, eq_iff k x, same))
    | inr below ↦ below
  ]
]

Settled-old :
    (s t : ClosestNodeStore) (d c : Key)
    → has d s.result_map ≡ false
    → Outcome s d t
    → Settled s c
    → Settled t c
Settled-old s t d c fresh (added room m b sorted has' len) st = elim st [
  | inl i ↦ inl (ground (arith, has' c))
  | inr (full, all) ↦ absurd (omega arith)
]
Settled-old s t d c fresh (displaced k l full m b near sorted has' len short) st = elim st [
  | inl i ↦ elim (Bool-cases (eq k c)) [
    | inl e ↦ inr (
      omega (arith, len fresh),
      λ x j.
          subst (λ y. lt x y ≡ true) ((eq_iff k c).0 e)
            (below_displaced s t d k x l near (has' x) j),
    )
    | inr e ↦ inl (ground (arith, has' c))
  ]
  | inr (full', all) ↦ inr (
    omega (arith, len fresh),
    λ x j. lt_trans x k c (below_displaced s t d k x l near (has' x) j) (all k l.inside),
  )
]
Settled-old s t d c fresh (too_far k l full far same) st = subst (λ u. Settled u c) (sym same) st

pub base-of_Outcome :
    (s t : ClosestNodeStore) (d : Key) → Outcome s d t → t.base_point ≡ s.base_point
base-of_Outcome s t d (added room m b sorted has' len) = b
base-of_Outcome s t d (displaced k l full m b near sorted has' len short) = b
base-of_Outcome s t d (too_far k l full far same) = ap (λ u. u.base_point) same

-- On a sorted store within its limit, `InsertNode` of a node with a key of 20 bytes, not the base
-- point where that is left out, keeps the store so, and leaves the node's distance in it or the
-- store full of nearer nodes.
pub insert_node_lem :
    (now raw : ℕ) (s : ClosestNodeStore) (e : KBucketEntry)
    → IsValid s
    → IsKey e.key
    → (s.no_self && eq e.key s.base_point) ≡ false
    → IsValid (insert_node now raw s e) × Settled (insert_node now raw s e) (distance s e)
insert_node_lem now raw s e v key other =
    let o = insert_node-Outcome now raw s e v key other in
    let h : length (distance s e) ≡ 20 = (minus-IsKey s.base_point e.key v.base key).sized in
    (Outcome-IsValid s _ (distance s e) o v, Settled-new s _ (distance s e) h o)

-- On a sorted store within its limit, `InsertNode` of a node with a key of 20 bytes, not the base
-- point where that is left out, whose distance is not in the store yet, loses no nearer node: every
-- distance that was in the store, or kept out of it by nearer ones, still is.
pub insert_node-Settled :
    (now raw : ℕ) (s : ClosestNodeStore) (e : KBucketEntry) (c : Key)
    → IsValid s
    → IsKey e.key
    → (s.no_self && eq e.key s.base_point) ≡ false
    → has (distance s e) s.result_map ≡ false
    → Settled s c
    → Settled (insert_node now raw s e) c
insert_node-Settled now raw s e c v key other fresh =
    Settled-old s _ (distance s e) c fresh (insert_node-Outcome now raw s e v key other)

IsLast-unique : (m : EntryMap) (j k : Key) → IsLast m j → IsLast m k → j ≡ k
IsLast-unique m j k p q = elim (q.greatest j p.inside) [
  | inl e ↦ e
  | inr below ↦ elim (p.greatest k q.inside) [
    | inl e ↦ sym e
    | inr above ↦ absurd (ground (arith, lt_trans j k j below above, lt_irrefl j))
  ]
]

-- On a sorted store that is full, `InsertNode` of a node whose distance is in it and below the
-- farthest drives the farthest out: the store is then one node short, with nothing put in the
-- place.
pub insert_node-again :
    (now raw : ℕ) (s : ClosestNodeStore) (e : KBucketEntry) (k : Key)
    → IsValid s
    → IsKey e.key
    → (s.no_self && eq e.key s.base_point) ≡ false
    → length s.result_map ≡ s.max_result
    → has (distance s e) s.result_map ≡ true
    → last_key s.result_map ≡ some k
    → lt (distance s e) k ≡ true
    → (length (insert_node now raw s e).result_map + 1 ≡ s.max_result)
      × (has k (insert_node now raw s e).result_map ≡ false)
insert_node-again now raw s e k v key other full old found near =
    again (insert_node-Outcome now raw s e v key other)
  where
    l : IsLast s.result_map k
    l = last_key-IsLast s.result_map k v.sorted found

    again :
        Outcome s (distance s e) (insert_node now raw s e)
        → (length (insert_node now raw s e).result_map + 1 ≡ s.max_result)
          × (has k (insert_node now raw s e).result_map ≡ false)
    again (added room m b sorted has' len) = absurd (omega arith)
    again (displaced j l' full' m b near' sorted has' len short) =
        let same : j ≡ k = IsLast-unique s.result_map j k l' l in
        (omega (arith, short old), ground (arith, has' k, eq_iff j k, same))
    again (too_far j l' full' far same) =
        absurd
          (ground (arith, near, far, ap (lt (distance s e)) (IsLast-unique s.result_map j k l' l)))

insert_full-no_self :
    (s : ClosestNodeStore) (d : Key) (e : KBucketEntry) (k : Option Key)
    → (insert_full s d e k).no_self ≡ s.no_self
unfolding insert_full
insert_full-no_self s d e none = refl
insert_full-no_self s d e (some k) = ground arith

pub insert_node-no_self :
    (now raw : ℕ) (s : ClosestNodeStore) (e : KBucketEntry)
    → (insert_node now raw s e).no_self ≡ s.no_self
unfolding insert_node
insert_node-no_self now raw s e =
    ground (arith, insert_full-no_self s (distance s e) (copy now raw e) (last_key s.result_map))
