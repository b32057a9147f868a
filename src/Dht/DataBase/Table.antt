-- ===== src/Dht/DataBase/Table.antt =====
-- The maps of DataBase.cpp: what insertion, change and erasure do to `find`.
use benliud.Common.{◌≡◌, refl, ap, true, false, arith, [], ◌∷◌, none, some, length, All}
use benliud.Common.Search.{keep}
use benliud.Dht.Key.{Key}
use benliud.Dht.Key.Order.{lt_irrefl}
use benliud.Dht.Store.Map.{not_lt}
use benliud.Dht.DataBase.{Table, apart, locate, update_at, insert_new, erase}

apart_self : (k : Key) → apart k k ≡ false
unfolding apart
apart_self k = ground (arith, lt_irrefl k)

same_place : (a b : Key) → length a ≡ 20 → length b ≡ 20 → apart a b ≡ false → a ≡ b
unfolding apart
same_place a b la lb h = not_lt a b la lb (ground (arith, h)) (ground (arith, h))

module _ {A : Type 0} where
  pub locate-insert_new_self :
      (k : Key) (v : A) (m : Table A) → locate k m ≡ none → locate k (insert_new k v m) ≡ some v
  unfolding locate insert_new
  locate-insert_new_self k v [] h = ground (arith, apart_self k)
  locate-insert_new_self k v (p ∷ m) h =
      ground (arith, h, apart_self k, locate-insert_new_self k v m)

  pub locate-insert_new_ne :
      (x k : Key) (v : A) (m : Table A)
      → apart x k ≡ true
      → locate x (insert_new k v m) ≡ locate x m
  unfolding locate insert_new
  locate-insert_new_ne x k v [] h = ground (arith, h)
  locate-insert_new_ne x k v (p ∷ m) h = ground (arith, h, locate-insert_new_ne x k v m h)

  pub locate-update_at_self :
      (k : Key) (f : A → A) (m : Table A) (v : A)
      → locate k m ≡ some v
      → locate k (update_at k f m) ≡ some (f v)
  unfolding locate update_at
  locate-update_at_self k f [] v h = absurd (cc)
  locate-update_at_self k f (p ∷ m) v h =
      ground (arith, h, ap f {x = p.1} {y = v}, locate-update_at_self k f m v)

  pub locate-update_at_ne :
      (x k : Key) (f : A → A) (m : Table A)
      → length x ≡ 20
      → length k ≡ 20
      → All (λ p. length p.0 ≡ 20) m
      → apart x k ≡ true
      → locate x (update_at k f m) ≡ locate x m
  unfolding locate update_at
  locate-update_at_ne x k f [] lx lk ls h = refl
  locate-update_at_ne x k f (p ∷ m) lx lk ls h = ground (
    arith,
    locate-update_at_ne x k f m lx lk ls.1 h,
    same_place k p.0 lk ls.0,
    ap (apart x) {x = k} {y = p.0},
  )

  pub locate-erase : (k : Key) (m : Table A) → locate k (erase k m) ≡ none
  unfolding locate erase keep
  locate-erase k [] = refl
  locate-erase k (p ∷ m) = ground (arith, locate-erase k m)
