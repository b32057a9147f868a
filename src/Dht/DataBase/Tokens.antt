-- ===== src/Dht/DataBase/Tokens.antt =====
-- Tokens, tasks and single keys in DataBase.cpp: what one call leaves for the next.
use benliud.Common.{
  ℕ, ◌+◌, ◌-◌, ◌*◌, ◌/◌, ◌≤◌, ◌≡◌, refl, true, false, arith, List, [], ◌∷◌, ◌++◌, none, some,
  length, take, drop, length-take, min, All, ◌==◌, Bool-cases, Option-cases, inl, inr, ◌⊎◌,
}
use benliud.Common.Search.{keep, remove_first}
use benliud.Common.Int.{at_most}
use benliud.Dht.Key.{Key, ne}
use benliud.Dht.Key.Order.{eq_refl, ne_lem}
use benliud.Dht.Entry.{InetAddr}
use benliud.Dht.DataBase.{
  DbItem, DataBase, Table, apart, locate, erase, store, replace_item, same_item, all_bytes,
  gen_token, check_token, token_data, on_timer, expire, is_fresh_token, get_peers, item_limit,
}
use benliud.Dht.DataBase.Table.{
  locate-insert_new_self, locate-insert_new_ne, locate-update_at_ne, locate-update_at_self,
  locate-erase,
}

locate-token :
    (sha1 : List ℕ → Key) (now : ℕ) (d : DataBase) (addr : InetAddr)
    → locate (gen_token sha1 now d addr).1 (gen_token sha1 now d addr).0.token_map ≡ some now
unfolding gen_token
locate-token sha1 now d addr =
    elim (Option-cases (locate (sha1 (token_data addr now)) d.token_map)) [
      | inl e ↦
          rw (e, gen_token) (locate-insert_new_self (sha1 (token_data addr now)) now d.token_map e)
      | inr (tick, e) ↦
          rw (e, gen_token)
            (locate-update_at_self (sha1 (token_data addr now)) (λ _. now) d.token_map tick e)
    ]

same_token : (k : Key) → ne k k ≡ false
same_token k = ground (arith, ne_lem k k, eq_refl k)

accepted :
    (sha1 : List ℕ → Key) (d : DataBase) (addr : InetAddr) (tick : ℕ)
    → locate (sha1 (token_data addr tick)) d.token_map ≡ some tick
    → (check_token sha1 d (sha1 (token_data addr tick)) addr)
      ≡ (record d { token_map = erase (sha1 (token_data addr tick)) d.token_map }, true)
unfolding check_token
accepted sha1 d addr tick e = rw (e, check_token, same_token (sha1 (token_data addr tick)))

refused :
    (sha1 : List ℕ → Key) (d : DataBase) (token : Key) (addr : InetAddr)
    → locate token d.token_map ≡ none
    → check_token sha1 d token addr ≡ (d, false)
unfolding check_token
refused sha1 d token addr e = rw (e, check_token)

used_once :
    (sha1 : List ℕ → Key) (d : DataBase) (addr other : InetAddr) (tick : ℕ)
    → locate (sha1 (token_data addr tick)) d.token_map ≡ some tick
    → let (used, ok) = check_token sha1 d (sha1 (token_data addr tick)) addr in
      (ok ≡ true) × (check_token sha1 used (sha1 (token_data addr tick)) other ≡ (used, false))
unfolding erase
used_once sha1 d addr other tick e = rw (accepted sha1 d addr tick e) (
  refl,
  refused sha1 _ (sha1 (token_data addr tick)) other
      (locate-erase (sha1 (token_data addr tick)) d.token_map),
)

-- A token that `GenToken` gives to an address is accepted from that address by the next
-- `CheckToken`, and from no address a second time.
pub check_token-gen_token :
    (sha1 : List ℕ → Key) (now : ℕ) (d : DataBase) (addr other : InetAddr)
    → let (d', token) = gen_token sha1 now d addr in
      let (used, ok) = check_token sha1 d' token addr in
      (ok ≡ true) × (check_token sha1 used token other ≡ (used, false))
unfolding gen_token
check_token-gen_token sha1 now d addr other =
    used_once sha1 (gen_token sha1 now d addr).0 addr other now (locate-token sha1 now d addr)

kept :
    (now : ℕ) (m : Table ℕ)
    → All (λ p. (p.1 ≤ now) × (now ≤ p.1 + 30000)) (keep (λ p. is_fresh_token now p.1) m)
unfolding keep is_fresh_token
kept now [] = tt
kept now (p ∷ m) = elim (Bool-cases (is_fresh_token now p.1)) [
  | inl e ↦ rw e ((ground (arith, e), ground (arith, e)), kept now m)
  | inr e ↦ rw e (kept now m)
]

-- `OnTimer` keeps a token for 30 seconds, and none with a later tick than the present one.
on_timer_lem :
    (now : ℕ) (d : DataBase)
    → All (λ p. (p.1 ≤ now) × (now ≤ p.1 + 30000)) (on_timer now d).token_map
unfolding on_timer expire
on_timer_lem now d = kept now d.token_map

-- `Store` says no exactly at the limit, and then changes nothing. Otherwise the item is the last
-- one under its key.
store_lem :
    (d : DataBase) (key : Key) (dbi : DbItem)
    → (((store d key dbi).1 ≡ false)
        × ((store d key dbi).0 ≡ d)
        × (at_most d.total_items (item_limit - 1) ≡ false))
      ⊎ (((store d key dbi).1 ≡ true)
          × (before : List DbItem) × (locate key (store d key dbi).0.database
              ≡ some (before ++ dbi ∷ [])))
unfolding store
store_lem d key dbi = elim (Bool-cases (at_most d.total_items (item_limit - 1))) [
  | inr full ↦ inl (rw full, rw full, full)
  | inl room ↦ elim (Option-cases (locate key d.database)) [
    | inl e ↦ inr (rw room, [], rw (room, e) (locate-insert_new_self key (dbi ∷ []) d.database e))
    | inr (items, e) ↦ inr (
      rw room,
      remove_first (λ i. same_item i dbi) items,
      rw (room, e)
          (unfold replace_item in locate-update_at_self key (replace_item dbi) d.database items e),
    )
  ]
]

-- `GetPeers` writes no more addresses than fit the buffer, as many as there are if they fit, and
-- those that it does not hand over stay for the next call, in their order.
get_peers_lem :
    (d : DataBase) (hash : Key) (buflen : ℕ) (items : List DbItem)
    → locate hash d.task_database ≡ some items
    → let (d', peers) = get_peers d hash buflen in
      (peers.counter ≡ min (buflen / 6) (length items))
      × (peers.counter * 6 ≤ buflen)
      × (peers.total ≡ length items)
      × (peers.bytes ≡ all_bytes (take (buflen / 6) items))
      × (locate hash d'.task_database ≡ some (drop (buflen / 6) items))
unfolding get_peers all_bytes
get_peers_lem d hash buflen items e = elim (Bool-cases (buflen / 6 == 0)) [
  | inl z ↦
      let none_fit : buflen / 6 ≡ 0 = ground (arith, z) in
      rw (e, get_peers, z, none_fit) (omega arith, omega arith, refl, refl, e)
  | inr n ↦
      rw (e, get_peers, n)
        (
          length-take (buflen / 6) items,
          omega (arith, length-take (buflen / 6) items),
          refl,
          refl,
          locate-update_at_self hash (drop (buflen / 6)) d.task_database items e,
        )
]

-- `Store` leaves what is stored under every other key alone, where all keys have 20 bytes.
locate-store_ne :
    (d : DataBase) (key other : Key) (dbi : DbItem)
    → length key ≡ 20
    → length other ≡ 20
    → All (λ p. length p.0 ≡ 20) d.database
    → apart other key ≡ true
    → locate other (store d key dbi).0.database ≡ locate other d.database
unfolding store
locate-store_ne d key other dbi lk lo ls ne =
    elim (Bool-cases (at_most d.total_items (item_limit - 1))) [
      | inr full ↦ rw full
      | inl room ↦ elim (Option-cases (locate key d.database)) [
        | inl e ↦ rw (room, e) (locate-insert_new_ne other key (dbi ∷ []) d.database ne)
        | inr (items, e) ↦
            rw (room, e) (locate-update_at_ne other key (replace_item dbi) d.database lo lk ls ne)
      ]
    ]
