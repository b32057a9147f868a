-- ===== src/Dht/Node/Announce.antt =====
-- `DoAnnounceJob` and `GoodAnnouncePeersResponse` of benliud_btkad/src/DHTNode.cpp: an announcement
-- that was answered is to rest for five minutes.
use benliud.Common.{
  ℕ, ◌-◌, ◌*◌, ◌^◌, ◌<◌, ◌≤◌, ◌≡◌, refl, false, arith, List, [], ◌∷◌, none, some, ==_refl,
}
use benliud.Common.Search.{find_first}
use benliud.Dht.Key.{Key, eq}
use benliud.Dht.Key.Order.{eq_refl}
use benliud.Dht.Entry.{InetAddr}
use benliud.Dht.Node.{DhtNode}
use benliud.Dht.Node.Records.{
  is_recent, announced_to, announce_task, do_announce_job, good_announce_peers_response,
}

is_recent_time :
    (tick time ip : ℕ)
    → tick < 2 ^ 32
    → 2 ^ 32 ≤ time
    → time ≤ 2 ^ 64 - 5 * 60 * 1000
    → is_recent tick (record { iip = ip; tick = time }) ≡ false
unfolding is_recent
is_recent_time tick time ip h lo hi = ground arith

good_announce_peers_response-fresh :
    (tick time : ℕ) (node : DhtNode) (ip : ℕ) (hash : Key)
    → find_first (λ p. eq p.0 hash) node.announce_record ≡ none
    → good_announce_peers_response tick time node ip hash ≡ record node {
      announce_record = (hash, record { iip = ip; tick = time } ∷ []) ∷ node.announce_record;
    }
unfolding good_announce_peers_response
good_announce_peers_response-fresh tick time node ip hash h =
    rw (h, good_announce_peers_response) refl

announced_to-none :
    (node : DhtNode) (hash : Key) (ip : ℕ)
    → find_first (λ p. eq p.0 hash) node.announce_record ≡ none
    → announced_to node hash ip ≡ none
unfolding announced_to
announced_to-none node hash ip h = rw (h, announced_to) refl

announced_to-first :
    (node : DhtNode) (hash : Key) (ip time : ℕ)
    → announced_to
        (record node {
          announce_record = (hash, record { iip = ip; tick = time } ∷ []) ∷ node.announce_record;
        })
        hash
        ip
      ≡ some (record { iip = ip; tick = time })
unfolding find_first announced_to
announced_to-first node hash ip time = rw (eq_refl hash, announced_to) (rw (==_refl ip) refl)

-- An answer to the first announcement of a key does not hold the next one back: with its time of 64
-- bits, which is past every tick of 32, it counts as old at once, and the same requests are sent as
-- if it had not come. The time is below 2 ^ 64 by five minutes at least.
pub do_announce_job-answered :
    (tick tick' time : ℕ) (node : DhtNode) (token : List ℕ) (hash : Key) (addr : InetAddr)
    → find_first (λ p. eq p.0 hash) node.announce_record ≡ none
    → tick' < 2 ^ 32
    → 2 ^ 32 ≤ time
    → time ≤ 2 ^ 64 - 5 * 60 * 1000
    → (do_announce_job tick'
        (good_announce_peers_response tick time node addr.iip hash)
        token
        hash
        addr).1
      ≡ (do_announce_job tick' node token hash addr).1
unfolding announce_task do_announce_job
do_announce_job-answered tick tick' time node token hash addr fresh h lo hi =
    rw (good_announce_peers_response-fresh tick time node addr.iip hash fresh) (
      rw
        (
          announced_to-first node hash addr.iip time,
          announced_to-none node hash addr.iip fresh,
          is_recent_time tick' time addr.iip h lo hi,
          do_announce_job,
        )
        refl)
