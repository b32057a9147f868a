-- ===== src/SingleRequest/Calls.antt =====
-- Any sequence of calls on a SingleRequest.cpp request, as BTPeer.cpp makes them.
use benliud.Common.{
  ℕ, ◌^◌, ◌<◌, ◌≡◌, refl, ap, sym, ◌∙◌, Bool, true, false, not, arith, List, [], ◌∷◌, ◌++◌, none,
  some, length,
}
use benliud.Common.Search.{find_first, update_first, count, find_first-none, all_iff}
use benliud.Common.{All}
use benliud.SingleRequest.{
  RequestBlock, SingleRequest, new, init, reset, empty, set_data, get_task, mark_pending_request,
  is_free, no_bytes, reset_pending_request, reset_pending_request_at, set_virtual_data, decompose,
  is_finish,
}
use benliud.SingleRequest.Alien.{set_alien, clear_alien}
use benliud.SingleRequest.Clock.{choke_notice}
use benliud.SingleRequest.Tiles.{decompose-Tiled}
use benliud.SingleRequest.Pending.{
  IsCounted, waiting, waiting-decompose, new-IsCounted, reset-IsCounted, set_data-IsCounted,
  get_task-IsCounted, mark_pending_request-IsCounted, reset_pending_request_at-IsCounted,
  reset_pending_request-IsCounted, set_virtual_data-IsCounted, set_alien-IsCounted,
  clear_alien-IsCounted,
}

-- The calls that change a request, each with its arguments and the tick at which it is made.
pub data Call : Type 0 where
  inits : (index n : ℕ) → Call
  resets : Call
  gets_task : (now : ℕ) → Call
  marks_pending : (offset now : ℕ) → Call
  resets_pending : Call
  resets_pending_at : (offset : ℕ) → Call
  sets_data : (offset : ℕ) (bytes : List ℕ) (now : ℕ) → Call
  sets_alien : (iip offset : ℕ) (bytes : List ℕ) → Call
  clears_alien : (iip : ℕ) → Call
  sets_virtual : (offset len : ℕ) → Call
  chokes : (choked : Bool) (now : ℕ) → Call

-- One call.
unfoldable pub step : SingleRequest → Call → SingleRequest
step r (inits index n) = init r (some index) n
step r resets = reset r
step r (gets_task now) = (get_task r now).0
step r (marks_pending offset now) = (mark_pending_request r offset now).0
step r resets_pending = reset_pending_request r
step r (resets_pending_at offset) = reset_pending_request_at r offset
step r (sets_data offset bytes now) = (set_data r offset bytes now).0
step r (sets_alien iip offset bytes) = set_alien r iip offset bytes
step r (clears_alien iip) = clear_alien r iip
step r (sets_virtual offset len) = set_virtual_data r offset len
step r (chokes choked now) = choke_notice r choked now

unfoldable pub run : SingleRequest → List Call → SingleRequest
run r [] = r
run r (c ∷ cs) = run (step r c) cs

-- `Init` is called on an empty request, as `CheckMyRequest` of BTPeer.cpp does, for a piece that is
-- shorter than an `unsigned int` can say.
abbrev pub IsAllowed : SingleRequest → Call → Type 0
IsAllowed r (inits index n) = (n < 2 ^ 32) × (empty r ≡ true)
IsAllowed r resets = Unit
IsAllowed r _ = Unit

-- And each call of a sequence is allowed when it is made.
unfoldable pub AreAllowed : SingleRequest → List Call → Type 0
AreAllowed r [] = Unit
AreAllowed r (c ∷ cs) = IsAllowed r c × AreAllowed (step r c) cs

-- The pending count is right, and a request for no piece has no blocks.
pub record Inv (r : SingleRequest) : Type 0 where
  pub counted : IsCounted r
  pub idle : empty r ≡ true → r.blocks ≡ []

init-Inv :
    (r : SingleRequest) (index n : ℕ) → n < 2 ^ 32 → r.blocks ≡ [] → Inv (init r (some index) n)
unfolding init empty
init-Inv r index n h e = record {
  counted = record {
    counted = sym (ap (λ bs. waiting (bs ++ decompose n n 0)) e ∙ waiting-decompose n n 0);
    few = omega (
      arith,
      ap (λ bs. length (bs ++ decompose n n 0)) e,
      decompose-Tiled n n 0 (omega arith) (omega arith),
    );
  };
  idle = λ no. absurd (cc);
}

-- Calls on a request without blocks leave it without blocks.
blocks-step :
    (r : SingleRequest) (c : Call)
    → (empty r ≡ true → r.blocks ≡ [])
    → empty (step r c) ≡ true
    → (step r c).blocks ≡ []
unfolding step init reset empty set_data get_task mark_pending_request reset_pending_request
    reset_pending_request_at set_virtual_data set_alien clear_alien choke_notice find_first
    update_first
blocks-step r (inits index n) h e = ground arith
blocks-step r resets h e = refl
blocks-step r (chokes true now) h e = h e
blocks-step r (chokes false now) h e = h e
blocks-step r (gets_task now) h e = ground arith
blocks-step r (marks_pending offset now) h e = ground arith
blocks-step r resets_pending h e = ground arith
blocks-step r (resets_pending_at offset) h e = ground arith
blocks-step r (sets_data offset bytes now) h e = ground arith
blocks-step r (sets_alien iip offset bytes) h e = ground arith
blocks-step r (clears_alien iip) h e = ground arith
blocks-step r (sets_virtual offset len) h e = ground arith

IsCounted-step : (r : SingleRequest) (c : Call) → IsAllowed r c → Inv r → IsCounted (step r c)
unfolding step choke_notice
IsCounted-step r (inits index n) h v = (init-Inv r index n h.0 (v.idle h.1)).counted
IsCounted-step r resets h v = reset-IsCounted r
IsCounted-step r (gets_task now) h v = get_task-IsCounted r now v.counted
IsCounted-step r (marks_pending offset now) h v =
    mark_pending_request-IsCounted r offset now v.counted
IsCounted-step r resets_pending h v = reset_pending_request-IsCounted r v.counted
IsCounted-step r (resets_pending_at offset) h v =
    reset_pending_request_at-IsCounted r offset v.counted
IsCounted-step r (sets_data offset bytes now) h v = set_data-IsCounted r offset bytes now v.counted
IsCounted-step r (sets_alien iip offset bytes) h v =
    set_alien-IsCounted r iip offset bytes v.counted
IsCounted-step r (clears_alien iip) h v = clear_alien-IsCounted r iip v.counted
IsCounted-step r (sets_virtual offset len) h v = set_virtual_data-IsCounted r offset len v.counted
IsCounted-step r (chokes true now) h v = record { counted = v.counted.counted; few = v.counted.few }
IsCounted-step r (chokes false now) h v = record {
  counted = v.counted.counted;
  few = v.counted.few;
}

step-Inv : (r : SingleRequest) (c : Call) → IsAllowed r c → Inv r → Inv (step r c)
step-Inv r c h v = record { counted = IsCounted-step r c h v; idle = blocks-step r c v.idle }

-- From a request whose `m_nPending` is the number of blocks asked for, and which has no blocks if
-- it is for no piece, as after construction, any calls lead to such a request again, where `Init` is
-- called on a request for no piece only, and for pieces shorter than 2 ^ 32 bytes. So `m_nPending`
-- never wraps below zero.
pub run-Inv : (r : SingleRequest) (cs : List Call) → AreAllowed r cs → Inv r → Inv (run r cs)
unfolding run AreAllowed
run-Inv r [] h v = v
run-Inv r (c ∷ cs) h v = run-Inv (step r c) cs h.1 (step-Inv r c h.0 v)

-- It starts so.
pub new-Inv : (now raw : ℕ) (fast : Bool) → Inv (new now raw fast)
unfolding new
new-Inv now raw fast = record { counted = new-IsCounted now raw fast; idle = λ e. refl }

All-taken :
    (bs : List RequestBlock)
    → All (λ b. is_free b ≡ false) bs
    → waiting bs ≡ 0
    → All (λ b. not (no_bytes b) ≡ true) bs
unfolding waiting count is_free
All-taken [] h w = tt
All-taken (b ∷ bs) h w = (ground (arith, h.0), All-taken bs h.1 (ground arith))

no_task :
    (r : SingleRequest) (now : ℕ) → (get_task r now).1 ≡ none → find_first is_free r.blocks ≡ none
unfolding get_task
no_task r now h = ground arith

-- Where `m_nPending` is the number of blocks asked for and is 0, the request is finished if
-- `GetTask` gives no block to ask for.
get_task-or-finish :
    (r : SingleRequest) (now : ℕ)
    → IsCounted r
    → r.pending_count ≡ 0
    → (get_task r now).1 ≡ none
    → is_finish r ≡ true
unfolding is_finish
get_task-or-finish r now c e h =
    (all_iff _ r.blocks).1
      (All-taken r.blocks (find_first-none is_free r.blocks (no_task r now h)) (sym c.counted ∙ e))
