-- ===== src/Dht/DataBase.antt =====
-- benliud_btkad/src/DataBase.cpp and DBItem.cpp: the addresses that other nodes have announced, the
-- tokens that an announcement needs, and the addresses found for our own tasks. A tick is the
-- result of `GetTickCount()` during the call; `sha1` stands for `CSHA1`.
pub mod Table
pub mod Items
pub mod Counts
pub mod Expiry
pub mod Tokens
mod Tests
use benliud.Common.{
  ℕ, zero, suc, ◌+◌, ◌-◌, ◌*◌, ◌/◌, ◌%◌, ◌^◌, Bool, true, false, not, ◌||◌, List, [], ◌∷◌, ◌++◌,
  map, Option, none, some, length, take, drop, ltb, leb, ◌==◌, if◌then◌else◌,
}
use benliud.Common.Search.{find_first, remove_first, keep, count}
use benliud.Common.Int.{ℤ, pos, negsuc, succ, pred, at_most}
use benliud.Dht.Key.{Key, lt, ne, eq}
use benliud.Dht.Entry.{InetAddr}
use benliud.Dht.Bucket.{compact}

-- `CDBItem`: the six bytes of address and port, and when they came.
pub record DbItem : Type 0 where
  pub item : List ℕ
  pub intime : ℕ

-- `MAX_AGE`
abbrev pub max_age : ℕ
max_age = 10 * 60 * 1000

-- `CDBItem(ip_port)` and `CDBItem(iip, iport)`
pub new_item : List ℕ → ℕ → DbItem
new_item ip_port now = record { item = ip_port; intime = now }

pub item_of_addr : InetAddr → ℕ → DbItem
item_of_addr addr now = record { item = compact addr; intime = now }

-- `IsExpired`, on `unsigned int`.
unfoldable pub is_expired : ℕ → DbItem → Bool
is_expired now i = ltb max_age ((now + 2 ^ 32 - i.intime) % 2 ^ 32)

-- `operator==`: the addresses are compared.
pub same_item : DbItem → DbItem → Bool
same_item i other = eq i.item other.item

-- `std::map<BTDHTKey, DBItemList>` and `TTokenMap`, their pairs in ascending order.
abbrev pub Table : Type 0 → Type 0
Table A = List (Key × A)

-- Two keys that the map keeps apart.
pub apart : Key → Key → Bool
apart k l = lt k l || lt l k

module _ {A : Type 0} where
  -- `find`
  pub locate : Key → Table A → Option A
  locate k [] = none
  locate k (p ∷ m) = if apart k p.0 then locate k m else some p.1

  -- A change of the value that `find` led to.
  pub update_at : Key → (A → A) → Table A → Table A
  update_at k f [] = []
  update_at k f (p ∷ m) = if apart k p.0 then p ∷ update_at k f m else (p.0, f p.1) ∷ m

  -- `m_Database[key] = value` for a key that is not there.
  pub insert_new : Key → A → Table A → Table A
  insert_new k v [] = (k, v) ∷ []
  insert_new k v (p ∷ m) = if lt k p.0 then (k, v) ∷ p ∷ m else p ∷ insert_new k v m

  -- `erase` by key.
  pub erase : Key → Table A → Table A
  erase k m = keep (λ p. apart k p.0) m

pub record DataBase : Type 0 where
  pub database : Table (List DbItem)
  pub task_database : Table (List DbItem)
  pub token_map : Table ℕ
  pub total_items : ℤ

-- `ITEM_LIMIT`
abbrev pub item_limit : ℕ
item_limit = 20000

-- `CDataBase`
pub new : DataBase
new = record { database = []; task_database = []; token_map = []; total_items = pos 0 }

-- The loop and the `push_back` of `Store` and `StoreTaskValue`: an equal item is replaced by the
-- new one, at the end.
pub replace_item : DbItem → List DbItem → List DbItem
replace_item dbi items = remove_first (λ i. same_item i dbi) items ++ dbi ∷ []

-- `m_nTotalItems--`, if the loop erased an item.
pub uncount_replaced : DbItem → List DbItem → ℤ → ℤ
uncount_replaced dbi items total = elim (find_first (λ i. same_item i dbi) items) [
  | none ↦ total
  | some _ ↦ pred total
]

-- `Store`
pub store : DataBase → Key → DbItem → DataBase × Bool
store d key dbi =
    if at_most d.total_items (item_limit - 1)
    then (
      elim (locate key d.database) [
        | none ↦ record d {
          database = insert_new key (dbi ∷ []) d.database;
          total_items = succ d.total_items;
        }
        | some items ↦ record d {
          database = update_at key (replace_item dbi) d.database;
          total_items = succ (uncount_replaced dbi items d.total_items);
        }
      ],
      true,
    )
    else (d, false)

-- `m_nTotalItems--`, `n` times.
pub uncount : ℕ → ℤ → ℤ
uncount zero total = total
uncount (suc n) total = uncount n (pred total)

-- `Expire`: the expired items go, and the keys that have none left; `removed` counts the items.
pub expire_table : ℕ → Table (List DbItem) → Table (List DbItem)
expire_table now [] = []
expire_table now (p ∷ m) =
    let rest = expire_table now m in
    let left = keep (λ i. not (is_expired now i)) p.1 in
    if length left == 0 then rest else (p.0, left) ∷ rest

pub removed : ℕ → Table (List DbItem) → ℕ
removed now [] = 0
removed now (p ∷ m) = count (is_expired now) p.1 + removed now m

pub expire : ℕ → DataBase → DataBase
expire now d = record d {
  database = expire_table now d.database;
  total_items = uncount (removed now d.database) d.total_items;
}

-- The ten bytes that are hashed: address, port and tick, on a little-endian machine.
pub token_data : InetAddr → ℕ → List ℕ
token_data addr tick =
    compact addr
    ++ (tick % 256) ∷ (tick / 2 ^ 8 % 256) ∷ (tick / 2 ^ 16 % 256) ∷ (tick / 2 ^ 24 % 256) ∷ []

-- `GenToken`: the token is kept with its tick.
pub gen_token : (List ℕ → Key) → ℕ → DataBase → InetAddr → DataBase × Key
gen_token sha1 now d addr =
    let token = sha1 (token_data addr now) in
    (
      record d {
        token_map = elim (locate token d.token_map) [
          | none ↦ insert_new token now d.token_map
          | some _ ↦ update_at token (λ _. now) d.token_map
        ];
      },
      token,
    )

-- `CheckToken`: a token is good for one announcement.
pub check_token : (List ℕ → Key) → DataBase → Key → InetAddr → DataBase × Bool
check_token sha1 d token addr = elim (locate token d.token_map) [
  | none ↦ (d, false)
  | some tick ↦
      if ne token (sha1 (token_data addr tick))
      then (d, false)
      else (record d { token_map = erase token d.token_map }, true)
]

-- The tokens that `OnTimer` leaves.
pub is_fresh_token : ℕ → ℕ → Bool
is_fresh_token now tick = if ltb now tick then false else not (ltb (30 * 1000) (now - tick))

-- `OnTimer`
pub on_timer : ℕ → DataBase → DataBase
on_timer now d =
    let d' = expire now d in
    record d' { token_map = keep (λ p. is_fresh_token now p.1) d'.token_map }

-- `StoreTaskValue`
pub store_task_value : DataBase → Key → DbItem → DataBase
store_task_value d key dbi = record d {
  task_database = elim (locate key d.task_database) [
    | none ↦ insert_new key (dbi ∷ []) d.task_database
    | some _ ↦ update_at key (replace_item dbi) d.task_database
  ];
}

pub all_bytes : List DbItem → List ℕ
all_bytes [] = []
all_bytes (i ∷ is) = i.item ++ all_bytes is

-- What `GetPeers` returns, its `*total`, and the bytes that it writes.
pub record Peers : Type 0 where
  pub counter : ℕ
  pub total : ℕ
  pub bytes : List ℕ

-- `GetPeers`: the addresses that fit the buffer are handed over and forgotten.
pub get_peers : DataBase → Key → ℕ → DataBase × Peers
get_peers d hash buflen = elim (locate hash d.task_database) [
  | none ↦ (d, record { counter = 0; total = 0; bytes = [] })
  | some items ↦
      let bmax = buflen / 6 in
      if bmax == 0 then (d, record { counter = 0; total = length items; bytes = [] }) else (
        record d { task_database = update_at hash (drop bmax) d.task_database },
        record {
          counter = length (take bmax items);
          total = length items;
          bytes = all_bytes (take bmax items);
        },
      )
]

-- `GetItemCount`
pub get_item_count : DataBase → ℤ
get_item_count d = d.total_items
