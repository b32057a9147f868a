-- ===== src/Peer/Queue.antt =====
-- The queue of the peer's requests in benliud_bt/src/BTPeer.cpp through every call that changes it.
use benliud.Common.{
  ℕ, ◌≤◌, ◌≡◌, refl, sym, ap, subst, ◌∙◌, arith, Bool, true, false, not, ◌&&◌, ◌||◌, List, [], ◌∷◌,
  length, All, ◌==◌, if◌then◌else◌, Bool-cases, inl, inr,
}
use benliud.Common.Search.{remove_first, remove_first-All}
use benliud.Peer.{word_at}
use benliud.Peer.Uploads.{
  PeerBlockRequest, BtPeer, PieceStore, peer_request_size, asks, sent, answer, do_cmd_request,
  cancel_block, do_cmd_cancel, do_cmd_interested, do_cmd_not_interested, send_un_choke, send_choke,
  send_interested, check_peer_request,
}
use benliud.Peer.Requests.{
  IsQueue, Serves, Distinct, remove_first-Distinct, length-remove_le, both, both_states,
  same-IsQueue, on_close-IsQueue, do_cmd_request-IsQueue,
}

remove_first_nil : (test : PeerBlockRequest → Bool) → remove_first test [] ≡ []
unfolding remove_first
remove_first_nil test = refl

do_cmd_cancel-IsQueue :
    (s : PieceStore) (p : BtPeer) (body : List ℕ) → IsQueue s p → IsQueue s (do_cmd_cancel p body)
unfolding do_cmd_cancel cancel_block
do_cmd_cancel-IsQueue s p body q =
    let test : PeerBlockRequest → Bool = asks (word_at 0 body) (word_at 4 body) in
    both_states s (length body == 12) _ _
      (λ _. record {
        few = omega (arith, length-remove_le test p.peer_request_list, q.few);
        distinct = remove_first-Distinct test p.peer_request_list q.distinct;
        serves = remove_first-All (Serves s) test p.peer_request_list q.serves;
        choked = λ f c. ap (remove_first test) (q.choked f c) ∙ remove_first_nil test;
      })
      (λ _. q)

do_cmd_interested-IsQueue :
    (s : PieceStore) (p : BtPeer) (body : List ℕ)
    → IsQueue s p
    → IsQueue s (do_cmd_interested p body)
unfolding do_cmd_interested
do_cmd_interested-IsQueue s p body q =
    both_states s (p.shaked && (length body == 0)) _ _ (λ _. same-IsQueue s p _ refl refl refl q)
      (λ _. q)

no_requests-IsQueue : (s : PieceStore) (p : BtPeer) → p.peer_request_list ≡ [] → IsQueue s p
no_requests-IsQueue s p e = record {
  few = rw e (omega arith);
  distinct = rw e tt;
  serves = rw e tt;
  choked = λ f c. e;
}

do_cmd_not_interested-IsQueue :
    (s : PieceStore) (p : BtPeer) (body : List ℕ)
    → IsQueue s p
    → IsQueue s (do_cmd_not_interested p body)
unfolding do_cmd_not_interested
do_cmd_not_interested-IsQueue s p body q =
    both_states s (p.shaked && (length body == 0)) _ _
      (λ _.
        both_states s p.upload_mode _ _ (λ _. on_close-IsQueue s p q)
          (λ _. no_requests-IsQueue s _ refl))
      (λ _. q)

send_un_choke-IsQueue : (s : PieceStore) (p : BtPeer) → IsQueue s p → IsQueue s (send_un_choke p).0
unfolding send_un_choke
send_un_choke-IsQueue s p q = record {
  few = q.few;
  distinct = q.distinct;
  serves = q.serves;
  choked = λ f c. absurd (cc);
}

send_choke-IsQueue : (s : PieceStore) (p : BtPeer) → IsQueue s p → IsQueue s (send_choke p).0
unfolding send_choke
send_choke-IsQueue s p q = elim (Bool-cases p.fast_extension) [
  | inr e ↦ no_requests-IsQueue s _ (rw e refl)
  | inl e ↦
      subst (λ rs. IsQueue s (record p { me_choke_peer = true; peer_request_list = rs }))
        (ap (λ c. if c then p.peer_request_list else []) (sym e))
        (record {
          few = q.few;
          distinct = q.distinct;
          serves = q.serves;
          choked = λ f c. absurd (cc);
        })
]

send_interested-IsQueue :
    (s : PieceStore) (p : BtPeer) (flag : Bool) → IsQueue s p → IsQueue s (send_interested p flag).0
unfolding send_interested
send_interested-IsQueue s p flag q =
    both s ((p.me_interest_peer && flag) || (not p.me_interest_peer && not flag)) _ _ (λ _. q)
      (λ _. same-IsQueue s p _ refl refl refl q)

shift-IsQueue :
    (s : PieceStore) (p : BtPeer) (in_debt : Bool) (reply : PeerBlockRequest → List ℕ)
    (rs : List PeerBlockRequest)
    → p.peer_request_list ≡ rs
    → p.me_choke_peer ≡ false
    → IsQueue s p
    → IsQueue s
        (elim rs as (λ _. BtPeer × List ℕ) [
          | [] ↦ (p, [])
          | r ∷ rest ↦ if in_debt then (p, []) else (record p { peer_request_list = rest }, reply r)
        ]).0
shift-IsQueue s p in_debt reply [] e c q = q
shift-IsQueue s p in_debt reply (r ∷ rest) e c q =
    both s in_debt _ _ (λ _. q)
      (λ _.
        let few : length (r ∷ rest) ≤ peer_request_size =
          subst (λ l. length l ≤ peer_request_size) e q.few in
        record {
          few = omega (arith, few);
          distinct = (subst Distinct e q.distinct).1;
          serves = (subst (All (Serves s)) e q.serves).1;
          choked = λ f d. absurd (cc);
        })

check_peer_request-IsQueue :
    (s : PieceStore) (p : BtPeer) (in_debt : Bool)
    → IsQueue s p
    → IsQueue s (check_peer_request s p in_debt).0
unfolding check_peer_request
check_peer_request-IsQueue s p in_debt q =
    both s p.me_choke_peer _ _ (λ _. q)
      (λ c.
        shift-IsQueue s p in_debt (λ r. sent (answer s r.index r.offset r.len)) p.peer_request_list
          refl c q)

-- The calls that speak of uploads.
pub data Call : Type 0 where
  got_request : List ℕ → Call
  got_cancel : List ℕ → Call
  got_interested : List ℕ → Call
  got_not_interested : List ℕ → Call
  choking : Call
  un_choking : Call
  interesting : Bool → Call
  checking : Bool → Call

abbrev step : PieceStore → BtPeer → Call → BtPeer
step s p (got_request body) = (do_cmd_request s p body).0
step s p (got_cancel body) = do_cmd_cancel p body
step s p (got_interested body) = do_cmd_interested p body
step s p (got_not_interested body) = do_cmd_not_interested p body
step s p choking = (send_choke p).0
step s p un_choking = (send_un_choke p).0
step s p (interesting flag) = (send_interested p flag).0
step s p (checking in_debt) = (check_peer_request s p in_debt).0

abbrev pub run : PieceStore → BtPeer → List Call → BtPeer
run s p [] = p
run s p (c ∷ cs) = run s (step s p c) cs

step-IsQueue : (s : PieceStore) (p : BtPeer) (c : Call) → IsQueue s p → IsQueue s (step s p c)
step-IsQueue s p (got_request body) q = do_cmd_request-IsQueue s p body q
step-IsQueue s p (got_cancel body) q = do_cmd_cancel-IsQueue s p body q
step-IsQueue s p (got_interested body) q = do_cmd_interested-IsQueue s p body q
step-IsQueue s p (got_not_interested body) q = do_cmd_not_interested-IsQueue s p body q
step-IsQueue s p choking q = send_choke-IsQueue s p q
step-IsQueue s p un_choking q = send_un_choke-IsQueue s p q
step-IsQueue s p (interesting flag) q = send_interested-IsQueue s p flag q
step-IsQueue s p (checking in_debt) q = check_peer_request-IsQueue s p in_debt q

-- Whatever calls come, at most 24 requests are queued, for different blocks of pieces that the
-- storage has; and none while the peer is choked, unless it has the fast extension. It is so at the
-- start, and the storage does not change.
pub run-IsQueue :
    (s : PieceStore) (p : BtPeer) (calls : List Call) → IsQueue s p → IsQueue s (run s p calls)
run-IsQueue s p [] q = q
run-IsQueue s p (c ∷ cs) q = run-IsQueue s (step s p c) cs (step-IsQueue s p c q)
