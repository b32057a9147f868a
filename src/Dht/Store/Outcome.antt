-- ===== src/Dht/Store/Outcome.antt =====
-- The cases of `InsertNode` of ClosestNodeStore.cpp, on a store whose map is in order.
use benliud.Common.{
  ℕ, suc, ◌+◌, ◌≤◌, ◌<◌, ◌≡◌, ◌⊎◌, refl, ap, ◌∙◌, true, false, not, ◌&&◌, ◌||◌, arith, [], ◌∷◌,
  some, length, ltb, if◌then◌else◌, Bool-cases, inl, inr,
}
use benliud.Dht.Key.{Key, IsKey, lt, eq, minus}
use benliud.Dht.Key.Distance.{minus-IsKey}
use benliud.Dht.Entry.{KBucketEntry, copy}
use benliud.Dht.Store.{
  EntryMap, ClosestNodeStore, map_insert, map_erase, last_key, insert_full, insert_node,
}
use benliud.Dht.Store.Map.{
  has, Sorted, has-map_insert, length-map_insert, map_insert-Sorted, has-map_erase,
  length-map_erase, map_erase-Sorted, IsLast, last_key-IsLast,
}

-- The distance of an entry from the base point.
abbrev pub distance : ClosestNodeStore → KBucketEntry → Key
distance s e = minus s.base_point e.key

-- A sorted map of at most `m_MaxResult` nodes, with room for one at least.
pub record IsValid (s : ClosestNodeStore) : Type 0 where
  pub base : IsKey s.base_point
  pub some_room : 0 < s.max_result
  pub sorted : Sorted s.result_map
  pub bounded : length s.result_map ≤ s.max_result

-- A distance is in the store, or the store is full of nearer nodes.
abbrev pub Settled : ClosestNodeStore → Key → Type 0
Settled s d =
    (has d s.result_map ≡ true)
    ⊎ ((length s.result_map ≡ s.max_result)
        × ((x : Key) → has x s.result_map ≡ true → lt x d ≡ true))

nonempty_last : (m : EntryMap) → 0 < length m → (k : Key) × (last_key m ≡ some k)
unfolding last_key
nonempty_last [] h = absurd (omega arith)
nonempty_last ((k, v) ∷ []) h = (k, refl)
nonempty_last ((k, v) ∷ (p ∷ m)) h = nonempty_last (p ∷ m) (omega arith)

-- What a displaced store holds: the new distance and all old ones but the farthest.
displaced_has :
    (x d k : Key) (e : KBucketEntry) (m : EntryMap)
    → length d ≡ 20
    → Sorted m
    → IsLast m k
    → has x (map_erase k (map_insert d e m)) ≡ (not (eq k x) && (eq d x || has x m))
displaced_has x d k e m h s l =
    has-map_erase x k (map_insert d e m) l.sized (map_insert-Sorted d e m h s)
    ∙ ap (λ b. not (eq k x) && b) (has-map_insert x d e m h s)

displaced_length :
    (d k : Key) (e : KBucketEntry) (m : EntryMap)
    → length d ≡ 20
    → Sorted m
    → IsLast m k
    → has d m ≡ false
    → length (map_erase k (map_insert d e m)) ≡ length m
displaced_length d k e m h s l new' = ground (
  arith,
  new',
  length-map_insert d e m h s,
  has-map_insert k d e m h s,
  l.inside,
  length-map_erase k (map_insert d e m) l.sized (map_insert-Sorted d e m h s),
)

-- The cases of `InsertNode` on a valid store, for an entry that is not the base point itself.
pub data Outcome (s : ClosestNodeStore) (d : Key) (t : ClosestNodeStore) : Type 0 where
  added :
      length s.result_map < s.max_result
      → t.max_result ≡ s.max_result
      → t.base_point ≡ s.base_point
      → Sorted t.result_map
      → ((x : Key) → has x t.result_map ≡ (eq d x || has x s.result_map))
      → length t.result_map
        ≡ (if has d s.result_map then length s.result_map else suc (length s.result_map))
      → Outcome s d t
  displaced :
      (k : Key)
      → IsLast s.result_map k
      → length s.result_map ≡ s.max_result
      → t.max_result ≡ s.max_result
      → t.base_point ≡ s.base_point
      → lt d k ≡ true
      → Sorted t.result_map
      → ((x : Key) → has x t.result_map ≡ (not (eq k x) && (eq d x || has x s.result_map)))
      → (has d s.result_map ≡ false → length t.result_map ≡ length s.result_map)
      → (has d s.result_map ≡ true → length t.result_map + 1 ≡ length s.result_map)
      → Outcome s d t
  too_far :
      (k : Key)
      → IsLast s.result_map k
      → length s.result_map ≡ s.max_result
      → lt d k ≡ false
      → t ≡ s
      → Outcome s d t

insert_full-Outcome :
    (s : ClosestNodeStore) (d : Key) (e : KBucketEntry)
    → IsValid s
    → length d ≡ 20
    → length s.result_map ≡ s.max_result
    → Outcome s d (insert_full s d e (last_key s.result_map))
unfolding insert_full
insert_full-Outcome s d e v h full =
    let (k, found) = nonempty_last s.result_map (omega (arith, v.some_room)) in
    let l = last_key-IsLast s.result_map k v.sorted found in
    rw (found, insert_full)
      (elim (Bool-cases (lt d k)) [
        | inl near ↦ rw near (
            displaced k l full refl refl near
              (map_erase-Sorted k _ (map_insert-Sorted d e s.result_map h v.sorted))
              (λ x. displaced_has x d k e s.result_map h v.sorted l)
              (displaced_length d k e s.result_map h v.sorted l)
              (λ old. ground (
                arith,
                old,
                l.inside,
                length-map_insert d e s.result_map h v.sorted,
                has-map_insert k d e s.result_map h v.sorted,
                length-map_erase k (map_insert d e s.result_map) l.sized
                    (map_insert-Sorted d e s.result_map h v.sorted),
              )))
        | inr far ↦ rw far (too_far k l full far refl)
      ])

pub insert_node-Outcome :
    (now raw : ℕ) (s : ClosestNodeStore) (e : KBucketEntry)
    → IsValid s
    → IsKey e.key
    → (s.no_self && eq e.key s.base_point) ≡ false
    → Outcome s (distance s e) (insert_node now raw s e)
unfolding insert_node
insert_node-Outcome now raw s e v key other =
    let h : length (distance s e) ≡ 20 = (minus-IsKey s.base_point e.key v.base key).sized in
    elim (Bool-cases (ltb (length s.result_map) s.max_result)) [
      | inl room ↦
          rw (other, room)
            (added (ground arith) refl refl
              (map_insert-Sorted (distance s e) (copy now raw e) s.result_map h v.sorted)
              (λ x. has-map_insert x (distance s e) (copy now raw e) s.result_map h v.sorted)
              (length-map_insert (distance s e) (copy now raw e) s.result_map h v.sorted))
      | inr full ↦
          rw (other, full)
            (insert_full-Outcome s (distance s e) (copy now raw e) v h (ground (arith, v.bounded)))
    ]
