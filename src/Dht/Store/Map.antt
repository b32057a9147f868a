-- ===== src/Dht/Store/Map.antt =====
-- The `std::map` of ClosestNodeStore.cpp: what insertion, erasure and the last key do to a sorted
-- map.
use benliud.Common.{
  suc, ◌+◌, ◌≡◌, ◌⊎◌, refl, ap, sym, ◌∙◌, subst, Bool, true, false, not, ◌&&◌, ◌||◌, arith, [], ◌∷◌,
  some, length, All, All-mono, if◌then◌else◌, Bool-cases, inl, inr,
}
use benliud.Dht.Key.{Key, lt, eq}
use benliud.Dht.Key.Order.{eq_iff, eq_refl, lt_trans, lt_irrefl, lt_total}
use benliud.Dht.Entry.{KBucketEntry}
use benliud.Dht.Store.{EntryMap, map_insert, map_erase, last_key}

-- The map has the key.
unfoldable pub has : Key → EntryMap → Bool
has x [] = false
has x ((k, v) ∷ m) = eq k x || has x m

-- Strictly ascending keys of 20 bytes.
abbrev pub Sorted : EntryMap → Type 0
Sorted [] = Unit
Sorted (p ∷ m) = (length p.0 ≡ 20) × All (λ q. lt p.0 q.0 ≡ true) m × Sorted m

-- `<` in neither direction means the same key.
pub not_lt : (a b : Key) → length a ≡ 20 → length b ≡ 20 → lt a b ≡ false → lt b a ≡ false → a ≡ b
not_lt a b p q h k = elim (lt_total a b (p ∙ sym q)) [
  | inl x ↦ absurd (cc)
  | inr (inl e) ↦ e
  | inr (inr x) ↦ absurd (cc)
]

pub has-map_insert :
    (x d : Key) (e : KBucketEntry) (m : EntryMap)
    → length d ≡ 20
    → Sorted m
    → has x (map_insert d e m) ≡ (eq d x || has x m)
unfolding has map_insert
has-map_insert x d e [] h s = refl
has-map_insert x d e ((k, v) ∷ m) h s =
    ground (arith, has-map_insert x d e m h s.2, not_lt d k h s.0, ap (λ z. eq z x) {x = d} {y = k})

pub lt_ne : (a b : Key) → lt a b ≡ true → (eq a b ≡ false) × (eq b a ≡ false)
lt_ne a b h = ground (
  arith,
  h,
  eq_iff a b,
  eq_iff b a,
  lt_irrefl a,
  ap (lt a) {x = a} {y = b},
  ap (lt a) {x = b} {y = a},
)

-- A key below all keys of the map is not in it.
has_below : (d : Key) (m : EntryMap) → All (λ q. lt d q.0 ≡ true) m → has d m ≡ false
unfolding has
has_below d [] a = refl
has_below d ((k, v) ∷ m) a = ground (arith, lt_ne d k a.0, has_below d m a.1)

below_trans :
    (d k : Key) (m : EntryMap)
    → lt d k ≡ true
    → All (λ q. lt k q.0 ≡ true) m
    → All (λ q. lt d q.0 ≡ true) m
below_trans d k m h a =
    All-mono (λ q. lt k q.0 ≡ true) (λ q. lt d q.0 ≡ true) m (λ q p. lt_trans d k q.0 h p) a

pub length-map_insert :
    (d : Key) (e : KBucketEntry) (m : EntryMap)
    → length d ≡ 20
    → Sorted m
    → length (map_insert d e m) ≡ (if has d m then length m else suc (length m))
unfolding has map_insert
length-map_insert d e [] h s = refl
length-map_insert d e ((k, v) ∷ m) h s = elim (Bool-cases (lt d k)) [
  | inl p ↦ ground (arith, p, lt_ne d k p, has_below d m (below_trans d k m p s.1))
  | inr q ↦ elim (Bool-cases (lt k d)) [
    | inl p ↦ ground (arith, p, q, lt_ne k d p, length-map_insert d e m h s.2)
    | inr p ↦ ground (arith, p, q, eq_iff k d, not_lt d k h s.0 q p)
  ]
]

All-map_insert :
    (P : Key → Type 0) (d : Key) (e : KBucketEntry) (m : EntryMap)
    → P d
    → All (λ q. P q.0) m
    → All (λ q. P q.0) (map_insert d e m)
unfolding map_insert
All-map_insert P d e [] p a = (p, tt)
All-map_insert P d e ((k, v) ∷ m) p a = elim (Bool-cases (lt d k)) [
  | inl x ↦ rw x (p, a)
  | inr x ↦ elim (Bool-cases (lt k d)) [
    | inl y ↦ rw (x, y) (a.0, All-map_insert P d e m p a.1)
    | inr y ↦ rw (x, y) a
  ]
]

pub map_insert-Sorted :
    (d : Key) (e : KBucketEntry) (m : EntryMap)
    → length d ≡ 20
    → Sorted m
    → Sorted (map_insert d e m)
unfolding map_insert
map_insert-Sorted d e [] h s = (h, tt, tt)
map_insert-Sorted d e ((k, v) ∷ m) h s = elim (Bool-cases (lt d k)) [
  | inl x ↦ rw x (h, (x, below_trans d k m x s.1), s)
  | inr x ↦ elim (Bool-cases (lt k d)) [
    | inl y ↦
        rw (x, y)
          (s.0, All-map_insert (λ z. lt k z ≡ true) d e m y s.1, map_insert-Sorted d e m h s.2)
    | inr y ↦ rw (x, y) s
  ]
]

pub has-map_erase :
    (x d : Key) (m : EntryMap)
    → length d ≡ 20
    → Sorted m
    → has x (map_erase d m) ≡ (not (eq d x) && has x m)
unfolding has map_erase
has-map_erase x d [] h s = ground arith
has-map_erase x d ((k, v) ∷ m) h s = elim (Bool-cases (lt d k || lt k d)) [
  | inl p ↦ ground (
    arith,
    p,
    has-map_erase x d m h s.2,
    lt_ne d k,
    lt_ne k d,
    eq_iff d x,
    eq_iff k x,
    eq_iff k d,
  )
  | inr p ↦
      let same : d ≡ k = not_lt d k h s.0 (ground arith) (ground arith) in
      ground (
        arith,
        p,
        same,
        ap (λ z. eq z x) same,
        eq_iff d x,
        has_below k m s.1,
        ap (λ z. has z m) {x = k} {y = x},
      )
]

pub length-map_erase :
    (d : Key) (m : EntryMap)
    → length d ≡ 20
    → Sorted m
    → has d m ≡ true
    → length (map_erase d m) + 1 ≡ length m
unfolding has map_erase
length-map_erase d [] h s i = absurd (cc)
length-map_erase d ((k, v) ∷ m) h s i = ground (
  arith,
  length-map_erase d m h s.2,
  eq_iff k d,
  lt_irrefl d,
  ap (lt d) {x = k} {y = d},
  ap (λ z. lt z d) {x = k} {y = d},
)

All-map_erase :
    (P : Key → Type 0) (d : Key) (m : EntryMap)
    → All (λ q. P q.0) m
    → All (λ q. P q.0) (map_erase d m)
unfolding map_erase
All-map_erase P d [] a = tt
All-map_erase P d ((k, v) ∷ m) a = elim (Bool-cases (lt d k || lt k d)) [
  | inl x ↦ rw x (a.0, All-map_erase P d m a.1)
  | inr x ↦ rw x a.1
]

pub map_erase-Sorted : (d : Key) (m : EntryMap) → Sorted m → Sorted (map_erase d m)
unfolding map_erase
map_erase-Sorted d [] s = tt
map_erase-Sorted d ((k, v) ∷ m) s = elim (Bool-cases (lt d k || lt k d)) [
  | inl x ↦ rw x (s.0, All-map_erase (λ z. lt k z ≡ true) d m s.1, map_erase-Sorted d m s.2)
  | inr x ↦ rw x s.2
]

-- The last key is in the map, and no key of the map is beyond it.
pub record IsLast (m : EntryMap) (k : Key) : Type 0 where
  pub sized : length k ≡ 20
  pub inside : has k m ≡ true
  pub greatest : (x : Key) → has x m ≡ true → (x ≡ k) ⊎ (lt x k ≡ true)

pub last_key-IsLast : (m : EntryMap) (k : Key) → Sorted m → last_key m ≡ some k → IsLast m k
unfolding last_key has
last_key-IsLast [] k s h = absurd (cc)
last_key-IsLast ((j, v) ∷ []) k s h =
    let same : j ≡ k = ground arith in
    record {
      sized = rw (← same) s.0;
      inside = ground (arith, eq_iff j k, same);
      greatest = λ x i. inl (sym ((eq_iff j x).0 (ground arith)) ∙ same);
    }
last_key-IsLast ((j, v) ∷ (p ∷ m)) k s h =
    let rest = last_key-IsLast (p ∷ m) k s.2 h in
    let below : lt j k ≡ true = elim (rest.greatest p.0 (ground (arith, eq_refl p.0))) [
      | inl e ↦ subst (λ z. lt j z ≡ true) e s.1.0
      | inr l ↦ lt_trans j p.0 k s.1.0 l
    ] in
    record {
      sized = rest.sized;
      inside = ground (arith, rest.inside);
      greatest = λ x i. elim (Bool-cases (eq j x)) [
        | inl e ↦ inr (subst (λ z. lt z k ≡ true) ((eq_iff j x).0 e) below)
        | inr e ↦ rest.greatest x (ground arith)
      ];
    }
