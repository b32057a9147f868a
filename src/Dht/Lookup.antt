-- ===== src/Dht/Lookup.antt =====
-- A lookup in one bucket: `GetClosestNodes` and `GetClosestGoodNodes` of
-- benliud_btkad/src/KBucket.cpp fill a store of ClosestNodeStore.cpp.
mod Tests
use benliud.Common.{
  ℕ, zero, suc, ◌+◌, ◌≤◌, ◌<◌, ◌≡◌, ◌≢◌, ◌⊎◌, refl, ap, sym, ◌∙◌, subst, Bool, true, false, not,
  ◌&&◌, ◌||◌, arith, List, [], ◌∷◌, length, All, All-mono, if◌then◌else◌, inl, inr,
}
use benliud.Common.Search.{keep}
use benliud.Dht.Key.{Key, IsKey, eq, minus}
use benliud.Dht.Key.Order.{eq_iff}
use benliud.Dht.Key.Distance.{minus_injective}
use benliud.Dht.Entry.{KBucketEntry, is_good}
use benliud.Dht.Bucket.{KBucket}
use benliud.Dht.Bucket.Keys.{Absent, Distinct}
use benliud.Dht.Store.{ClosestNodeStore, insert_node, new}
use benliud.Dht.Store.Map.{has}
use benliud.Dht.Store.Outcome.{distance, IsValid, Settled, Outcome, insert_node-Outcome}
use benliud.Dht.Store.Closest.{
  insert_node_lem, insert_node-Settled, base-of_Outcome, insert_node-no_self,
}

-- The loop over the entries. `raw` stands for what the copy of each entry finds in `m_nFailed`.
unfoldable pub insert_all :
    ℕ → (KBucketEntry → ℕ) → ClosestNodeStore → List KBucketEntry → ClosestNodeStore
insert_all now raw s [] = s
insert_all now raw s (e ∷ es) = insert_all now raw (insert_node now (raw e) s e) es

-- `GetClosestNodes`
unfoldable pub get_closest_nodes :
    ℕ → (KBucketEntry → ℕ) → KBucket → ClosestNodeStore → ClosestNodeStore
get_closest_nodes now raw b closest = insert_all now raw closest b.entries

-- `GetClosestGoodNodes`
pub get_closest_good_nodes : ℕ → (KBucketEntry → ℕ) → KBucket → ClosestNodeStore → ClosestNodeStore
get_closest_good_nodes now raw b closest = insert_all now raw closest (keep (is_good now) b.entries)

Outcome-has :
    (s t : ClosestNodeStore) (d x : Key)
    → Outcome s d t
    → eq d x ≡ false
    → has x s.result_map ≡ false
    → has x t.result_map ≡ false
Outcome-has s t d x (Outcome.added room m b sorted has' len) ne old = ground (arith, has' x)
Outcome-has s t d x (Outcome.displaced k l full m b near sorted has' len short) ne old =
    ground (arith, has' x)
Outcome-has s t d x (Outcome.too_far k l full far same) ne old =
    subst (λ u. has x u.result_map ≡ false) (sym same) old

-- Distances of entries that are still to come.
abbrev Fresh : ClosestNodeStore → List KBucketEntry → Type 0
Fresh s = All (λ e. has (distance s e) s.result_map ≡ false)

abbrev Foreign : ClosestNodeStore → List KBucketEntry → Type 0
Foreign s = All (λ e. (s.no_self && eq e.key s.base_point) ≡ false)

distance_ne :
    (base : Key) (e f : KBucketEntry)
    → IsKey base
    → IsKey e.key
    → IsKey f.key
    → eq f.key e.key ≡ false
    → eq (minus base e.key) (minus base f.key) ≡ false
distance_ne base e f b p q ne = ground (
  arith,
  eq_iff f.key e.key,
  eq_iff (minus base e.key) (minus base f.key),
  minus_injective base f.key e.key b q p,
)

Fresh-insert_node :
    (now raw : ℕ) (s : ClosestNodeStore) (e : KBucketEntry) (fs : List KBucketEntry)
    → IsValid s
    → IsKey e.key
    → (s.no_self && eq e.key s.base_point) ≡ false
    → All (λ f. IsKey f.key) fs
    → Absent e.key fs
    → Fresh s fs
    → Fresh (insert_node now raw s e) fs
Fresh-insert_node now raw s e [] v p other q a fr = tt
Fresh-insert_node now raw s e (f ∷ fs) v p other q a fr =
    let o = insert_node-Outcome now raw s e v p other in
    let b = base-of_Outcome s _ (distance s e) o in
    (
      subst (λ z. has (minus z f.key) (insert_node now raw s e).result_map ≡ false) (sym b)
          (Outcome-has s _ (distance s e) (distance s f) o
            (distance_ne s.base_point e f v.base p q.0 a.0) fr.0),
      Fresh-insert_node now raw s e fs v p other q.1 a.1 fr.1,
    )

Foreign-insert_node :
    (now raw : ℕ) (s : ClosestNodeStore) (e : KBucketEntry) (fs : List KBucketEntry)
    → (insert_node now raw s e).base_point ≡ s.base_point
    → Foreign s fs
    → Foreign (insert_node now raw s e) fs
Foreign-insert_node now raw s e fs b =
    All-mono _ _ fs (λ f h. ground (arith, h, b, insert_node-no_self now raw s e, ap (eq f.key) b))

-- The store after the loop.
record Filled (s t : ClosestNodeStore) (es : List KBucketEntry) : Type 0 where
  valid : IsValid t
  base : t.base_point ≡ s.base_point
  settled : All (λ e. Settled t (distance s e)) es
  old : (c : Key) → Settled s c → Settled t c

insert_all-Filled :
    (now : ℕ) (raw : KBucketEntry → ℕ) (s : ClosestNodeStore) (es : List KBucketEntry)
    → IsValid s
    → All (λ e. IsKey e.key) es
    → Distinct es
    → Foreign s es
    → Fresh s es
    → Filled s (insert_all now raw s es) es
unfolding insert_all
insert_all-Filled now raw s [] v k d f fr = record {
  valid = v;
  base = refl;
  settled = tt;
  old = λ c st. st;
}
insert_all-Filled now raw s (e ∷ es) v k d f fr =
    let step = insert_node_lem now (raw e) s e v k.0 f.0 in
    let b = base-of_Outcome s _ (distance s e) (insert_node-Outcome now (raw e) s e v k.0 f.0) in
    let rest =
      insert_all-Filled now raw (insert_node now (raw e) s e) es step.0 k.1 d.1
        (Foreign-insert_node now (raw e) s e es b f.1)
        (Fresh-insert_node now (raw e) s e es v k.0 f.0 k.1 d.0 fr.1) in
    record {
      valid = rest.valid;
      base = rest.base ∙ b;
      settled = (
        rest.old (distance s e) step.1,
        subst
            (λ z.
              All
                (λ x. Settled (insert_all now raw (insert_node now (raw e) s e) es) (minus z x.key))
                es)
            b rest.settled,
      );
      old = λ c st. rest.old c (insert_node-Settled now (raw e) s e c v k.0 f.0 fr.0 st);
    }

new-IsValid : (base : Key) (max : ℕ) → IsKey base → 0 < max → IsValid (new base max)
unfolding new
new-IsValid base max b h = record { base = b; some_room = h; sorted = tt; bounded = omega arith }

new-Foreign :
    (base : Key) (max : ℕ) (es : List KBucketEntry) → Absent base es → Foreign (new base max) es
unfolding new
new-Foreign base max [] a = tt
new-Foreign base max (e ∷ es) a = (a.0, new-Foreign base max es a.1)

new-Fresh : (base : Key) (max : ℕ) (es : List KBucketEntry) → Fresh (new base max) es
unfolding new has
new-Fresh base max [] = tt
new-Fresh base max (e ∷ es) = (refl, new-Fresh base max es)

base-new : (base : Key) (max : ℕ) → (new base max).base_point ≡ base
unfolding new
base-new base max = refl

-- On a bucket of distinct keys of 20 bytes, none of which is the base point, `GetClosestNodes`
-- fills a new store for one node or more with the nearest entries: it is sorted and within its
-- limit, and each entry of the bucket is in it, or it is full of nearer ones.
pub get_closest_nodes_lem :
    (now : ℕ) (raw : KBucketEntry → ℕ) (b : KBucket) (base : Key) (max : ℕ)
    → IsKey base
    → 0 < max
    → All (λ e. IsKey e.key) b.entries
    → Distinct b.entries
    → Absent base b.entries
    → let s = get_closest_nodes now raw b (new base max) in
      IsValid s × All (λ e. Settled s (minus base e.key)) b.entries
unfolding get_closest_nodes
get_closest_nodes_lem now raw b base max p h k d a =
    let f =
      insert_all-Filled now raw (new base max) b.entries (new-IsValid base max p h) k d
        (new-Foreign base max b.entries a) (new-Fresh base max b.entries) in
    (
      f.valid,
      subst
          (λ z.
            All (λ e. Settled (insert_all now raw (new base max) b.entries) (minus z e.key))
              b.entries)
          (base-new base max) f.settled,
    )
