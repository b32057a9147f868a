-- ===== src/Dht/DataBase/Counts.antt =====
-- `m_nTotalItems` of DataBase.cpp against the items that are stored.
use benliud.Common.{
  ℕ, zero, suc, ◌+◌, ◌-◌, ◌<◌, ◌≤◌, ◌≡◌, refl, ap, sym, ◌∙◌, subst, true, not, arith, List, [], ◌∷◌,
  some, length, All, ◌==◌, Bool-cases, Option-cases, inl, inr,
}
use benliud.Common.Search.{keep}
use benliud.Common.Int.{pos, succ, pred, at_most}
use benliud.Dht.Key.{Key, lt}
use benliud.Dht.DataBase.{
  DbItem, DataBase, Table, apart, locate, update_at, insert_new, new, store, expire, expire_table,
  removed, uncount, uncount_replaced, replace_item, is_expired, item_limit,
}
use benliud.Dht.DataBase.Items.{
  Distinct, replace_item-Distinct, length-replace_item, keep-Distinct, length-keep_fresh,
}

-- The number of items in a table.
pub size : Table (List DbItem) → ℕ
size [] = 0
size (p ∷ m) = length p.1 + size m

-- The items of a key: one at least, no address twice.
abbrev pub IsList : Key × List DbItem → Type 0
IsList p = (0 < length p.1) × Distinct p.1

-- `m_nTotalItems` is the number of items, which is within the limit.
pub record IsCounted (d : DataBase) : Type 0 where
  pub total : d.total_items ≡ pos (size d.database)
  pub few : size d.database ≤ item_limit
  pub lists : All IsList d.database

size-insert_new :
    (k : Key) (x : DbItem) (m : Table (List DbItem)) → size (insert_new k (x ∷ []) m) ≡ size m + 1
unfolding size insert_new
size-insert_new k x [] = refl
size-insert_new k x (p ∷ m) = ground (arith, size-insert_new k x m)

size-update_at :
    (k : Key) (f : List DbItem → List DbItem) (m : Table (List DbItem)) (v : List DbItem)
    → locate k m ≡ some v
    → size (update_at k f m) + length v ≡ size m + length (f v)
unfolding size update_at locate
size-update_at k f [] v h = absurd (cc)
size-update_at k f (p ∷ m) v h = ground (
  arith,
  h,
  size-update_at k f m v,
  ap (λ x. length (f x)) {x = p.1} {y = v},
  ap length {x = p.1} {y = v},
)

All-insert_new :
    (k : Key) (v : List DbItem) (m : Table (List DbItem))
    → IsList (k, v)
    → All IsList m
    → All IsList (insert_new k v m)
unfolding insert_new
All-insert_new k v [] h a = (h, tt)
All-insert_new k v (p ∷ m) h a = elim (Bool-cases (lt k p.0)) [
  | inl e ↦ rw e (h, a)
  | inr e ↦ rw e (a.0, All-insert_new k v m h a.1)
]

All-replace :
    (k : Key) (x : DbItem) (m : Table (List DbItem))
    → All IsList m
    → All IsList (update_at k (replace_item x) m)
unfolding update_at
All-replace k x [] a = tt
All-replace k x (p ∷ m) a = elim (Bool-cases (apart k p.0)) [
  | inl e ↦ rw e (a.0, All-replace k x m a.1)
  | inr e ↦ rw e (
    (
      elim (length-replace_item x p.1) [
        | inl (f, l) ↦ omega (arith, l)
        | inr (y, f, l) ↦ omega (arith, l, a.0.0)
      ],
      replace_item-Distinct x p.1 a.0.1,
    ),
    a.1,
  )
]

at_limit : (n : ℕ) → n ≤ item_limit → at_most (pos n) (item_limit - 1) ≡ true → n + 1 ≤ item_limit
at_limit n h e = ground arith

succ-pred : (n : ℕ) → succ (pred (pos n)) ≡ pos n
unfolding succ pred
succ-pred zero = refl
succ-pred (suc n) = refl

replaced_total :
    (d : DataBase) (dbi : DbItem) (items : List DbItem) (n : ℕ)
    → d.total_items ≡ pos (size d.database)
    → n + length items ≡ size d.database + length (replace_item dbi items)
    → succ (uncount_replaced dbi items d.total_items) ≡ pos n
unfolding uncount_replaced
replaced_total d dbi items n t h = elim (length-replace_item dbi items) [
  | inl (f, l) ↦ rw (f, uncount_replaced, t) (unfold succ in ap pos (omega (arith, h, l)))
  | inr (y, f, l) ↦
      rw (f, uncount_replaced, t) (succ-pred (size d.database) ∙ ap pos (omega (arith, h, l)))
]

store-IsCounted :
    (d : DataBase) (key : Key) (dbi : DbItem) → IsCounted d → IsCounted (store d key dbi).0
unfolding store
store-IsCounted d key dbi c = elim (Bool-cases (at_most d.total_items (item_limit - 1))) [
  | inr full ↦ rw full c
  | inl room ↦
      let few =
        at_limit (size d.database) c.few
          (subst (λ z. at_most z (item_limit - 1) ≡ true) c.total room) in
      elim (Option-cases (locate key d.database)) [
        | inl e ↦
            rw (room, e)
              (record {
                total =
                    ap succ c.total
                    ∙ unfold succ in ap pos (omega (arith, size-insert_new key dbi d.database));
                few = omega (arith, few, size-insert_new key dbi d.database);
                lists = All-insert_new key (dbi ∷ []) d.database (omega arith, (tt, tt)) c.lists;
              })
        | inr (items, e) ↦
            rw (room, e)
              (let n = size-update_at key (replace_item dbi) d.database items e in
                record {
                  total = replaced_total d dbi items _ c.total n;
                  few = elim (length-replace_item dbi items) [
                    | inl (f, l) ↦ omega (arith, n, l, few)
                    | inr (y, f, l) ↦ omega (arith, n, l, few)
                  ];
                  lists = All-replace key dbi d.database c.lists;
                })
      ]
]

pred_pos : (n m : ℕ) → n ≡ suc m → pred (pos n) ≡ pos m
unfolding pred
pred_pos zero m e = absurd (omega arith)
pred_pos (suc n) m e = ap pos (omega arith)

uncount_lem : (n a : ℕ) → uncount n (pos (n + a)) ≡ pos a
unfolding uncount
uncount_lem zero a = ap pos (omega arith)
uncount_lem (suc n) a =
    ap (uncount n) (pred_pos (suc n + a) (n + a) (omega arith)) ∙ uncount_lem n a

size-expire_table :
    (now : ℕ) (m : Table (List DbItem)) → removed now m + size (expire_table now m) ≡ size m
unfolding size removed expire_table
size-expire_table now [] = refl
size-expire_table now (p ∷ m) = ground (arith, size-expire_table now m, length-keep_fresh now p.1)

All-expire_table :
    (now : ℕ) (m : Table (List DbItem)) → All IsList m → All IsList (expire_table now m)
unfolding expire_table
All-expire_table now [] a = tt
All-expire_table now (p ∷ m) a =
    elim (Bool-cases (length (keep (λ i. not (is_expired now i)) p.1) == 0)) [
      | inl e ↦ rw e (All-expire_table now m a.1)
      | inr e ↦ rw e (
        (ground (arith, e), keep-Distinct (λ i. not (is_expired now i)) p.1 a.0.1),
        All-expire_table now m a.1,
      )
    ]

expire-IsCounted : (now : ℕ) (d : DataBase) → IsCounted d → IsCounted (expire now d)
unfolding expire
expire-IsCounted now d c =
    let n = size-expire_table now d.database in
    record {
      total =
          ap (uncount (removed now d.database)) (c.total ∙ ap pos (sym n))
          ∙ uncount_lem (removed now d.database) (size (expire_table now d.database));
      few = omega (arith, n, c.few);
      lists = All-expire_table now d.database c.lists;
    }

-- The announcements and timer ticks of a session.
pub data Event : Type 0 where
  stores : (key : Key) (dbi : DbItem) → Event
  expires : (now : ℕ) → Event

pub run : DataBase → List Event → DataBase
run d [] = d
run d (stores key dbi ∷ es) = run (store d key dbi).0 es
run d (expires now ∷ es) = run (expire now d) es

run-IsCounted_from : (es : List Event) (d : DataBase) → IsCounted d → IsCounted (run d es)
unfolding run
run-IsCounted_from [] d c = c
run-IsCounted_from (stores key dbi ∷ es) d c =
    run-IsCounted_from es (store d key dbi).0 (store-IsCounted d key dbi c)
run-IsCounted_from (expires now ∷ es) d c =
    run-IsCounted_from es (expire now d) (expire-IsCounted now d c)

-- After any calls of `Store` and `Expire`, `m_nTotalItems` is the number of items stored, at most
-- `ITEM_LIMIT`, and no key has an empty list or an address twice.
pub run-IsCounted : (es : List Event) → IsCounted (run new es)
unfolding new size
run-IsCounted es =
    run-IsCounted_from es new (record { total = refl; few = omega arith; lists = tt })
