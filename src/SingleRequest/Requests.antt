-- ===== src/SingleRequest/Requests.antt =====
-- The calls of SingleRequest.cpp as BTPeer.cpp reads their results.
use benliud.Common.{
  ℕ, ◌+◌, ◌<◌, ◌≡◌, refl, arith, Bool, List, Option, none, some, Option-cases, inl, inr, some_cases,
  if_cases, false, All, All-mono, ◌==◌, not,
}
use benliud.Common.Search.{find_first, update_first-All, all_iff}
use benliud.SingleRequest.{
  SingleRequest, get_task, is_free, set_data, mark_pending_request, takes, starts_at,
  reset_pending_request_at,
}
use benliud.SingleRequest.Alien.{have_alien}

pub get_task-none :
    (r : SingleRequest) (now : ℕ) → (get_task r now).1 ≡ none → find_first is_free r.blocks ≡ none
unfolding get_task
get_task-none r now h = elim (Option-cases (find_first is_free r.blocks)) [
  | inl e ↦ e
  | inr e ↦ ground (arith, h, e.1)
]

pub get_task-some :
    (r : SingleRequest) (now : ℕ) (o : ℕ × ℕ)
    → (get_task r now).1 ≡ some o
    → r.pending_count < 12
    → (get_task r now).0.pending_count ≡ r.pending_count + 1
unfolding get_task
get_task-some r now o h l = elim (Option-cases (find_first is_free r.blocks)) [
  | inl e ↦ ground (arith, h, e)
  | inr e ↦ ground (arith, e.1, l)
]

-- The piece of a request stays the same.
pub index-set_data :
    (r : SingleRequest) (offset : ℕ) (bytes : List ℕ) (now : ℕ)
    → (set_data r offset bytes now).0.index ≡ r.index
unfolding set_data
index-set_data r offset bytes now =
    some_cases (λ (x : SingleRequest × Bool). x.0.index ≡ r.index)
      (find_first (takes offset bytes) r.blocks) _ _ (λ _. refl) (λ b _. refl)

pub index-get_task : (r : SingleRequest) (now : ℕ) → (get_task r now).0.index ≡ r.index
unfolding get_task
index-get_task r now =
    some_cases (λ (x : SingleRequest × Option (ℕ × ℕ)). x.0.index ≡ r.index)
      (find_first is_free r.blocks) _ _ (λ _. refl) (λ b _. refl)

pub index-mark_pending_request :
    (r : SingleRequest) (offset now : ℕ) → (mark_pending_request r offset now).0.index ≡ r.index
unfolding mark_pending_request
index-mark_pending_request r offset now =
    some_cases (λ (x : SingleRequest × Bool). x.0.index ≡ r.index)
      (find_first (starts_at offset) r.blocks) _ _ (λ _. refl)
      (λ b _.
        if_cases (λ (x : SingleRequest). x.index ≡ r.index) b.pending _ _ (λ _. refl) (λ _. refl))

pub index-reset_pending_request_at :
    (r : SingleRequest) (offset : ℕ) → (reset_pending_request_at r offset).index ≡ r.index
unfolding reset_pending_request_at
index-reset_pending_request_at r offset =
    some_cases (λ (x : SingleRequest). x.index ≡ r.index) (find_first (starts_at offset) r.blocks) _
      _ (λ _. refl) (λ b _. refl)

-- No block came from the peer.
abbrev pub IsForeign : ℕ → SingleRequest → Type 0
IsForeign iip r = All (λ b. (b.source == iip) ≡ false) r.blocks

pub set_data-IsForeign :
    (iip : ℕ) (r : SingleRequest) (offset : ℕ) (bytes : List ℕ) (now : ℕ)
    → IsForeign iip r
    → IsForeign iip (set_data r offset bytes now).0
unfolding set_data
set_data-IsForeign iip r offset bytes now h =
    some_cases (λ (x : SingleRequest × Bool). IsForeign iip x.0)
      (find_first (takes offset bytes) r.blocks) _ _ (λ _. h)
      (λ b _.
        update_first-All (λ c. (c.source == iip) ≡ false) (takes offset bytes) _ r.blocks
          (λ c _ a. a) h)

pub have_alien_foreign : (iip : ℕ) (r : SingleRequest) → IsForeign iip r → have_alien r iip ≡ false
unfolding have_alien
have_alien_foreign iip r h = ground (
  arith,
  (all_iff (λ b. not (b.source == iip)) r.blocks).1
      (All-mono _ _ r.blocks (λ b e. ground (arith, e)) h),
)
