-- ===== src/Peer/Arrivals/Asking.antt =====
-- The loop of CBTPeer::DoMyRequest of benliud_bt/src/BTPeer.cpp for a piece that one peer is asked for.
use benliud.Common.{
  ℕ, zero, suc, ◌+◌, ◌*◌, ◌≤◌, ◌≡◌, ◌⊎◌, refl, arith, List, none, length, ltb, inl, inr,
  length-append, if_cases, some_cases,
}
use benliud.Common.Search.{find_first}
use benliud.SingleRequest.{SingleRequest, get_task, is_free}
use benliud.SingleRequest.Requests.{get_task-none, get_task-some}
use benliud.Peer.{packet, block_words, htonl, send_request}
use benliud.Peer.Downloads.{pending_request_size, index_of, send_tasks}

length-send_request : (i o l : ℕ) → length (send_request i o l) ≡ 17
unfolding send_request packet block_words htonl
length-send_request i o l = refl

-- What the loop leaves of a request, with the bytes that it sends.
pub record IsAsked (r : SingleRequest) (x : SingleRequest × List ℕ) : Type 0 where
  pub few : x.0.pending_count ≤ 12
  pub done : (x.0.pending_count ≡ 12) ⊎ (find_first is_free x.0.blocks ≡ none)
  pub told : length x.1 + 17 * r.pending_count ≡ 17 * x.0.pending_count

send_tasks-IsAsked_more :
    (fuel : ℕ) (r : SingleRequest) (now : ℕ)
    → r.pending_count ≤ 12
    → 12 ≤ r.pending_count + fuel
    → IsAsked r (send_tasks fuel r now)
unfolding send_tasks
send_tasks-IsAsked_more zero r now h e = record {
  few = h;
  done = inl (omega arith);
  told = omega arith;
}
send_tasks-IsAsked_more (suc fuel) r now h e =
    if_cases (IsAsked r) (ltb r.pending_count pending_request_size) _ _
      (λ lt.
        some_cases (IsAsked r) (get_task r now).1 _ _
          (λ n. record { few = h; done = inr (get_task-none r now n); told = omega arith })
          (λ o s.
            let more : (get_task r now).0.pending_count ≡ r.pending_count + 1 =
              get_task-some r now o s (ground (arith, lt)) in
            let rest =
              send_tasks-IsAsked_more fuel (get_task r now).0 now (ground (arith, lt, more))
                (omega (arith, more)) in
            record {
              few = rest.few;
              done = rest.done;
              told = omega (
                arith,
                rest.told,
                more,
                length-send_request (index_of r) o.0 o.1,
                length-append (send_request (index_of r) o.0 o.1)
                    (send_tasks fuel (get_task r now).0 now).1,
              );
            }))
      (λ ge. record { few = h; done = inl (ground (arith, ge)); told = omega arith })

-- The loop ends with 12 blocks asked for, or with no block left that has neither data nor a request;
-- a message of 17 bytes is sent for each new request. At most 12 blocks are asked for before.
pub send_tasks-IsAsked :
    (r : SingleRequest) (now : ℕ)
    → r.pending_count ≤ 12
    → IsAsked r (send_tasks pending_request_size r now)
send_tasks-IsAsked r now h = send_tasks-IsAsked_more pending_request_size r now h (omega arith)
