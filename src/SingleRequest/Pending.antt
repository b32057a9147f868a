-- ===== src/SingleRequest/Pending.antt =====
-- The count `m_nPending` of SingleRequest.cpp against the flags of the blocks.
use benliud.Common.{
  ℕ, zero, suc, ◌+◌, ◌^◌, ◌<◌, ◌≡◌, refl, sym, ◌∙◌, Bool, true, false, arith, List, [], ◌∷◌, map,
  length, Option-cases, inl, inr,
}
use benliud.Common.Search.{
  find_first, update_first, count, find_first_sound, count-update_first, count-ge_find_first,
  count-le-length, length-update_first,
}
use benliud.SingleRequest.{
  RequestBlock, SingleRequest, block_at, decompose, new, reset, takes, set_data, is_free, get_task,
  reset_pending_request, reset_pending_request_at, starts_at, mark_pending_request, not_pending,
  zero_inside, set_virtual_data,
}
use benliud.SingleRequest.Alien.{drop_alien, set_alien, clear_alien}

-- How many blocks are asked for.
unfoldable pub waiting : List RequestBlock → ℕ
waiting = count (λ b. b.pending)

-- `m_nPending` is the number of blocks asked for, and there are fewer blocks than an
-- `unsigned int` can count.
pub record IsCounted (r : SingleRequest) : Type 0 where
  pub counted : r.pending_count ≡ waiting r.blocks
  pub few : length r.blocks < 2 ^ 32

pub waiting-decompose : (fuel n offset : ℕ) → waiting (decompose fuel n offset) ≡ 0
unfolding waiting decompose count block_at
waiting-decompose zero n offset = refl
waiting-decompose (suc fuel) n offset =
    ground (arith, waiting-decompose fuel n (offset + (block_at n offset).length))

pub new-IsCounted : (now raw : ℕ) (fast : Bool) → IsCounted (new now raw fast)
unfolding new waiting count
new-IsCounted now raw fast = record { counted = refl; few = omega arith }

pub reset-IsCounted : (r : SingleRequest) → IsCounted (reset r)
unfolding reset waiting count
reset-IsCounted r = record { counted = refl; few = omega arith }

pub set_data-IsCounted :
    (r : SingleRequest) (offset : ℕ) (bytes : List ℕ) (now : ℕ)
    → IsCounted r
    → IsCounted (set_data r offset bytes now).0
unfolding set_data waiting
set_data-IsCounted r offset bytes now c =
    elim (Option-cases (find_first (takes offset bytes) r.blocks)) [
      | inl e ↦ rw (e, set_data) c
      | inr (b, e) ↦ ground (
        arith,
        c.counted,
        count-update_first (λ b. b.pending) (takes offset bytes)
            (λ c. record c { pending = false; bytes = bytes }) r.blocks b e,
        count-ge_find_first (λ b. b.pending) (takes offset bytes) r.blocks b e,
        count-le-length (λ b. b.pending) r.blocks,
        length-update_first (takes offset bytes) (λ c. record c { pending = false; bytes = bytes })
            r.blocks,
      )
    ]

pub get_task-IsCounted : (r : SingleRequest) (now : ℕ) → IsCounted r → IsCounted (get_task r now).0
unfolding get_task waiting is_free
get_task-IsCounted r now c = elim (Option-cases (find_first is_free r.blocks)) [
  | inl e ↦ rw (e, get_task) c
  | inr (b, e) ↦ ground (
    arith,
    c.counted,
    find_first_sound is_free r.blocks b e,
    count-update_first (λ b. b.pending) is_free (λ c. record c { pending = true }) r.blocks b e,
    count-le-length (λ b. b.pending)
        (update_first is_free (λ c. record c { pending = true }) r.blocks),
    length-update_first is_free (λ c. record c { pending = true }) r.blocks,
  )
]

pub mark_pending_request-IsCounted :
    (r : SingleRequest) (offset now : ℕ)
    → IsCounted r
    → IsCounted (mark_pending_request r offset now).0
unfolding mark_pending_request waiting
mark_pending_request-IsCounted r offset now c =
    elim (Option-cases (find_first (starts_at offset) r.blocks)) [
      | inl e ↦ rw (e, mark_pending_request) c
      | inr (b, e) ↦ ground (
        arith,
        c.counted,
        count-update_first (λ b. b.pending) (starts_at offset)
            (λ c. record c { pending = true; outtick = now }) r.blocks b e,
        count-le-length (λ b. b.pending)
            (update_first (starts_at offset) (λ c. record c { pending = true; outtick = now })
              r.blocks),
        length-update_first (starts_at offset) (λ c. record c { pending = true; outtick = now })
            r.blocks,
      )
    ]

pub reset_pending_request_at-IsCounted :
    (r : SingleRequest) (offset : ℕ) → IsCounted r → IsCounted (reset_pending_request_at r offset)
unfolding reset_pending_request_at waiting
reset_pending_request_at-IsCounted r offset c =
    elim (Option-cases (find_first (starts_at offset) r.blocks)) [
      | inl e ↦ rw (e, reset_pending_request_at) c
      | inr (b, e) ↦ ground (
        arith,
        c.counted,
        count-update_first (λ b. b.pending) (starts_at offset) (λ c. record c { pending = false })
            r.blocks b e,
        count-ge_find_first (λ b. b.pending) (starts_at offset) r.blocks b e,
        count-le-length (λ b. b.pending) r.blocks,
        length-update_first (starts_at offset) (λ c. record c { pending = false }) r.blocks,
      )
    ]

pending-zero_inside :
    (offset len : ℕ) (b : RequestBlock) → (zero_inside offset len b).pending ≡ b.pending
unfolding zero_inside
pending-zero_inside offset len b = ground arith

pending-drop_alien : (iip : ℕ) (b : RequestBlock) → (drop_alien iip b).pending ≡ b.pending
unfolding drop_alien
pending-drop_alien iip b = ground arith

-- Changes that leave every `pending` flag alone, and the change that clears them all.
waiting-map :
    (f : RequestBlock → RequestBlock) (bs : List RequestBlock)
    → ((b : RequestBlock) → (f b).pending ≡ b.pending)
    → (waiting (map f bs) ≡ waiting bs) × (length (map f bs) ≡ length bs)
unfolding waiting count
waiting-map f [] h = (refl, refl)
waiting-map f (b ∷ bs) h = ground (arith, h b, waiting-map f bs h)

waiting-map_clear :
    (bs : List RequestBlock)
    → (waiting (map not_pending bs) ≡ 0) × (length (map not_pending bs) ≡ length bs)
unfolding waiting count not_pending
waiting-map_clear [] = (refl, refl)
waiting-map_clear (b ∷ bs) = ground (arith, waiting-map_clear bs)

waiting-update_first :
    (test : RequestBlock → Bool) (f : RequestBlock → RequestBlock) (bs : List RequestBlock)
    → ((b : RequestBlock) → (f b).pending ≡ b.pending)
    → waiting (update_first test f bs) ≡ waiting bs
unfolding waiting count update_first
waiting-update_first test f [] h = refl
waiting-update_first test f (b ∷ bs) h = ground (arith, h b, waiting-update_first test f bs h)

pub reset_pending_request-IsCounted :
    (r : SingleRequest) → IsCounted r → IsCounted (reset_pending_request r)
unfolding reset_pending_request
reset_pending_request-IsCounted r c = ground (arith, waiting-map_clear r.blocks)

pub set_virtual_data-IsCounted :
    (r : SingleRequest) (offset len : ℕ) → IsCounted r → IsCounted (set_virtual_data r offset len)
unfolding set_virtual_data
set_virtual_data-IsCounted r offset len c = ground (
  arith,
  c.counted,
  waiting-map (zero_inside offset len) r.blocks (pending-zero_inside offset len),
)

pub set_alien-IsCounted :
    (r : SingleRequest) (iip offset : ℕ) (bytes : List ℕ)
    → IsCounted r
    → IsCounted (set_alien r iip offset bytes)
unfolding set_alien
set_alien-IsCounted r iip offset bytes c = record {
  counted = c.counted ∙ sym (waiting-update_first _ _ r.blocks (λ b. refl));
  few = rw length-update_first c.few;
}

pub clear_alien-IsCounted :
    (r : SingleRequest) (iip : ℕ) → IsCounted r → IsCounted (clear_alien r iip)
unfolding clear_alien
clear_alien-IsCounted r iip c =
    ground (arith, c.counted, waiting-map (drop_alien iip) r.blocks (pending-drop_alien iip))
