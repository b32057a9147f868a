-- ===== src/Dht/DataBase/Tests.antt =====
-- DataBase.cpp at concrete inputs, and its theorems where their hypotheses hold.
use benliud.Common.{ℕ, ◌≡◌, refl, true, false, List, [], ◌∷◌, none, some, replicate}
use benliud.Common.Search.{find_first, remove_first, keep, count}
use benliud.Common.Int.{pos, succ, pred}
use benliud.Dht.Key.{Key, lt, eq}
use benliud.Dht.Entry.{InetAddr}
use benliud.Dht.Bucket.{compact}
use benliud.Dht.DataBase.{
  DbItem, DataBase, new_item, item_of_addr, is_expired, same_item, apart, locate, update_at,
  insert_new, new, replace_item, uncount_replaced, store, uncount, expire_table, removed, expire,
  gen_token, check_token, store_task_value, get_item_count,
}
use benliud.Dht.DataBase.Counts.{stores, expires, run, IsCounted, run-IsCounted}
use benliud.Dht.DataBase.Tokens.{check_token-gen_token}

abbrev addr : InetAddr
addr = record { iip = 1; iport = 2 }

abbrev one : DbItem
one = new_item (1 ∷ 0 ∷ 0 ∷ 0 ∷ 2 ∷ 0 ∷ []) 100

abbrev two : DbItem
two = new_item (5 ∷ 0 ∷ 0 ∷ 0 ∷ 2 ∷ 0 ∷ []) 900000

abbrev key : ℕ → Key
key n = n ∷ replicate 19 0

abbrev filled : DataBase
filled = (store (store (store new (key 7) one).0 (key 3) two).0 (key 7) one).0

counts :
    (get_item_count filled ≡ pos 2)
    × (get_item_count (expire 900000 filled) ≡ pos 1)
    × (locate (key 7) filled.database ≡ some (one ∷ []))
    × (locate (key 7) (expire 900000 filled).database ≡ none)
    × ((store (record filled { total_items = pos 20000 }) (key 1) one).1 ≡ false)
    × (item_of_addr addr 100 ≡ one)
unfolding get_item_count store new uncount_replaced find_first same_item eq succ pred update_at
    insert_new locate apart lt replace_item remove_first expire expire_table removed uncount count
    keep is_expired new_item item_of_addr compact
counts = (refl, refl, refl, refl, refl, refl)

abbrev task : DataBase
task =
    store_task_value (store_task_value (store_task_value new (key 7) one) (key 7) two) (key 7) one

task_found : locate (key 7) task.task_database ≡ some (two ∷ one ∷ [])
unfolding store_task_value new locate insert_new update_at apart lt replace_item remove_first
    same_item eq new_item
task_found = refl

run-IsCounted_example :
    IsCounted (run new (stores (key 7) one ∷ stores (key 7) two ∷ expires 900000 ∷ []))
run-IsCounted_example =
    run-IsCounted (stores (key 7) one ∷ stores (key 7) two ∷ expires 900000 ∷ [])

abbrev small : DataBase
small = record new { database = (key 3, one ∷ []) ∷ [] }

-- A hash that keeps the bytes as they are.
abbrev no_hash : List ℕ → Key
no_hash bytes = bytes

check_token-gen_token_example :
    let (d, token) = gen_token no_hash 5000 new addr in
    let (used, ok) = check_token no_hash d token addr in
    (ok ≡ true) × (check_token no_hash used token addr ≡ (used, false))
check_token-gen_token_example = check_token-gen_token no_hash 5000 new addr addr
