-- ===== src/ShareRequest/Tasks.antt =====
-- `GetTask`, `GetOverlapTask`, `GiveUp` and the clearing of data in ShareRequest.cpp: which blocks
-- are asked for, and how often.
use benliud.Common.{
  ℕ, zero, suc, ◌+◌, ◌≤◌, ◌<◌, ◌≡◌, ◌⊎◌, ap, true, false, arith, List, [], ◌∷◌, map, none, some,
  Option, if_cases, length-eq-zero, All, Bool-cases, Option-cases, inl, inr,
}
use benliud.Common.Int.{ℤ, at_most}
use benliud.Common.Search.{update_first, find_first, find_first_sound, find_first-none}
use benliud.ShareRequest.{
  ShareBlock, ShareRequest, no_bytes, starts_at, receive, set_data, plus_one, drop_bytes,
  clear_data, wants, ask, take_task, get_task, get_overlap_task, drop_unconfirmed,
  clear_comfirm_data,
}
use benliud.ShareRequest.Data.{find_first-update_first, offset-receive}

-- The priority is at least the number.
abbrev pub Above : ℕ → ℤ → Type 0
Above n p = at_most p n ≡ false

wants_lem :
    (limit : ℕ) (b : ShareBlock) → wants limit b ≡ true → (b.bytes ≡ []) × (b.pending < limit)
unfolding wants no_bytes
wants_lem limit b w = (length-eq-zero b.bytes (ground arith), ground arith)

one_more : (n : ℕ) → n < 0xFFFF → plus_one n ≡ n + 1
one_more n h = omega arith

-- A block that `GetTask` hands out has no data, and its count of requests goes up by one without
-- wrapping; `GetTask` gives up only at a priority of 0 or less, or when every block has data or is
-- asked for 65535 times.
get_share_task_lem :
    (r : ShareRequest)
    → ((b : ShareBlock) × (find_first (wants 0xFFFF) r.blocks ≡ some b)
        × ((get_task r).1 ≡ some (b.offset, b.length))
        × (b.bytes ≡ [])
        × ((ask b).pending ≡ b.pending + 1)
        × Above 0 r.priority)
      ⊎ (((get_task r).1 ≡ none)
          × ((get_task r).0 ≡ r)
          × ((at_most r.priority 0 ≡ true) ⊎ All (λ b. wants 0xFFFF b ≡ false) r.blocks))
unfolding get_task take_task ask
get_share_task_lem r = elim (Bool-cases (at_most r.priority 0)) [
  | inl low ↦ inr (rw low, rw low, inl low)
  | inr high ↦ elim (Option-cases (find_first (wants 0xFFFF) r.blocks)) [
    | inl e ↦
        inr (rw (high, e, take_task), rw (high, e, take_task), inr (find_first-none _ r.blocks e))
    | inr (b, e) ↦
        let w = find_first_sound (wants 0xFFFF) r.blocks b e in
        inl (
          b,
          e,
          rw (high, e, take_task),
          (wants_lem 0xFFFF b w).0,
          one_more b.pending (wants_lem 0xFFFF b w).1,
          high,
        )
  ]
]

-- The limits of `GetOverlapTask`: no block is asked for again at priority 5 or less, for a third
-- time at priority 10 or less, or for a fourth time at any priority.
get_overlap_task-limit :
    (r : ShareRequest) (offset len : ℕ)
    → (get_overlap_task r).1 ≡ some (offset, len)
    → (b : ShareBlock) × (b.offset ≡ offset)
      × (b.length ≡ len)
      × Above 5 r.priority
      × (b.bytes ≡ [])
      × ((b.pending ≤ 1) ⊎ (Above 10 r.priority × (b.pending ≤ 2)))
unfolding get_overlap_task take_task
get_overlap_task-limit r offset len h = elim (Bool-cases (at_most r.priority 5)) [
  | inl low ↦ absurd (ground arith)
  | inr high ↦ elim (Option-cases (find_first (wants 2) r.blocks)) [
    | inr (b, e) ↦
        let w = wants_lem 2 b (find_first_sound (wants 2) r.blocks b e) in
        (b, ground arith, ground arith, high, w.0, inl (omega (arith, w.1)))
    | inl e ↦ elim (Option-cases (find_first (wants 3) r.blocks)) [
      | inl e' ↦ absurd (ground arith)
      | inr (b, e') ↦
          let w = wants_lem 3 b (find_first_sound (wants 3) r.blocks b e') in
          (b, ground arith, ground arith, high, w.0, inr (ground arith, omega (arith, w.1)))
    ]
  ]
]

bytes-drop_bytes : (b : ShareBlock) → (drop_bytes b).bytes ≡ []
unfolding drop_bytes no_bytes
bytes-drop_bytes b = ground (arith, length-eq-zero b.bytes)

-- A count of 0 wraps to 65535.
drop-not_wanted :
    (iip : ℕ) (bytes : List ℕ) (b : ShareBlock)
    → b.pending ≡ 0
    → wants 0xFFFF (drop_bytes (receive iip bytes b).0) ≡ false
unfolding drop_bytes receive wants
drop-not_wanted iip bytes b p = ground arith

find_first-map_drop :
    (offset : ℕ) (bs : List ShareBlock) (b : ShareBlock)
    → find_first (starts_at offset) bs ≡ some b
    → find_first (starts_at offset) (map drop_bytes bs) ≡ some (drop_bytes b)
unfolding find_first starts_at drop_bytes
find_first-map_drop offset [] b h = absurd (cc)
find_first-map_drop offset (c ∷ cs) b h =
    ground (arith, find_first-map_drop offset cs b, ap drop_bytes {x = c} {y = b})

kept_one :
    (n : ℕ) (b : ShareBlock)
    → (no_bytes (drop_unconfirmed n b) ≡ true) ⊎ (n ≤ (drop_unconfirmed n b).comfirm)
unfolding drop_unconfirmed no_bytes
kept_one n b = ground arith

dropped_pending :
    (iip : ℕ) (bytes : List ℕ) (b : ShareBlock)
    → b.pending ≡ 0
    → (drop_bytes (receive iip bytes b).0).pending ≡ 65535
unfolding drop_bytes receive
dropped_pending iip bytes b p = ground arith

-- A block that is not wanted stays where it is when another one is asked for.
find_first-asked :
    (limit offset : ℕ) (bs : List ShareBlock) (c : ShareBlock)
    → wants limit c ≡ false
    → find_first (starts_at offset) bs ≡ some c
    → find_first (starts_at offset) (update_first (wants limit) ask bs) ≡ some c
unfolding find_first update_first starts_at ask
find_first-asked limit offset [] c w h = absurd (cc)
find_first-asked limit offset (b ∷ bs) c w h =
    ground (arith, w, find_first-asked limit offset bs c w, ap (wants limit) {x = b} {y = c})

take_task-stays :
    (limit offset : ℕ) (r : ShareRequest) (c : ShareBlock)
    → wants limit c ≡ false
    → find_first (starts_at offset) r.blocks ≡ some c
    → find_first (starts_at offset) (take_task limit r).0.blocks ≡ some c
unfolding take_task
take_task-stays limit offset r c w h = elim (Option-cases (find_first (wants limit) r.blocks)) [
  | inl e ↦ rw (e, take_task) h
  | inr (b, e) ↦ rw (e, take_task) (find_first-asked limit offset r.blocks c w h)
]

-- `GetTask`, as often as this.
pub get_tasks : ℕ → ShareRequest → ShareRequest
get_tasks zero r = r
get_tasks (suc n) r = get_tasks n (get_task r).0

get_task-stays :
    (offset : ℕ) (r : ShareRequest) (c : ShareBlock)
    → wants 0xFFFF c ≡ false
    → find_first (starts_at offset) r.blocks ≡ some c
    → find_first (starts_at offset) (get_task r).0.blocks ≡ some c
unfolding get_task
get_task-stays offset r c w h =
    if_cases
      (λ (x : ShareRequest × Option (ℕ × ℕ)). find_first (starts_at offset) x.0.blocks ≡ some c)
      (at_most r.priority 0) (r, none) (take_task 0xFFFF r) (λ _. h)
      (λ _. take_task-stays 0xFFFF offset r c w h)

get_tasks-stays :
    (n offset : ℕ) (r : ShareRequest) (c : ShareBlock)
    → wants 0xFFFF c ≡ false
    → find_first (starts_at offset) r.blocks ≡ some c
    → find_first (starts_at offset) (get_tasks n r).blocks ≡ some c
unfolding get_tasks
get_tasks-stays zero offset r c w h = h
get_tasks-stays (suc n) offset r c w h =
    get_tasks-stays n offset (get_task r).0 c w (get_task-stays offset r c w h)

-- A block that nobody was asked for and that comes all the same counts as asked for 65535 times. When
-- its data is thrown away, `GetTask`, as often as it is called with no other call in between, leaves
-- the block without data and with that count, so it never asks for it.
pub set_data-unasked :
    (r : ShareRequest) (iip offset : ℕ) (bytes : List ℕ) (b : ShareBlock) (n : ℕ)
    → find_first (starts_at offset) r.blocks ≡ some b
    → b.pending ≡ 0
    → (c : ShareBlock) × (find_first
          (starts_at offset)
          (get_tasks n (clear_data (set_data r iip offset bytes).0)).blocks
        ≡ some c)
      × (c.bytes ≡ [])
      × (c.pending ≡ 65535)
unfolding set_data clear_data
set_data-unasked r iip offset bytes b n e p = (
  drop_bytes (receive iip bytes b).0,
  get_tasks-stays n offset (clear_data (set_data r iip offset bytes).0)
      (drop_bytes (receive iip bytes b).0) (drop-not_wanted iip bytes b p)
      (rw (e, set_data)
        (find_first-map_drop offset _ (receive iip bytes b).0 (
          find_first-update_first offset (λ c. (receive iip bytes c).0) r.blocks b
            (offset-receive iip bytes) e))),
  bytes-drop_bytes (receive iip bytes b).0,
  dropped_pending iip bytes b p,
)

kept :
    (n : ℕ) (bs : List ShareBlock)
    → All (λ b. (no_bytes b ≡ true) ⊎ (n ≤ b.comfirm)) (map (drop_unconfirmed n) bs)
kept n [] = tt
kept n (b ∷ bs) = (kept_one n b, kept n bs)

-- What `ClearComfirmData` leaves has been confirmed at least as often as the piece has failed.
clear_comfirm_data_lem :
    (r : ShareRequest)
    → All (λ b. (no_bytes b ≡ true) ⊎ (r.fail_times ≤ b.comfirm)) (clear_comfirm_data r).blocks
unfolding clear_comfirm_data
clear_comfirm_data_lem r = kept r.fail_times r.blocks
