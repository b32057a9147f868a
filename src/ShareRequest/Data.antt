-- ===== src/ShareRequest/Data.antt =====
-- What `SetData` of ShareRequest.cpp keeps and what it replaces, when several peers send a block.
use benliud.Common.{
  ℕ, ◌≡◌, ◌≢◌, ◌↔◌, ◌⊎◌, refl, ap, ap₂, true, false, not, ◌&&◌, arith, List, [], ◌∷◌, none, some,
  ◌==◌, if◌then◌else◌, Option-cases, inl, inr,
}
use benliud.Common.Search.{find_first, update_first}
use benliud.ShareRequest.{
  ShareBlock, ShareRequest, not_found, differs, no_bytes, equal, starts_at, receive, set_data,
}

equal_iff : (xs ys : List ℕ) → (equal xs ys ≡ true) ↔ (xs ≡ ys)
unfolding equal
equal_iff [] [] = (λ _. refl, λ _. refl)
equal_iff [] (y ∷ ys) = (λ h. absurd (cc), λ h. absurd (cc))
equal_iff (x ∷ xs) [] = (λ h. absurd (cc), λ h. absurd (cc))
equal_iff (x ∷ xs) (y ∷ ys) = (
  λ h. ap₂ ◌∷◌ (ground arith) ((equal_iff xs ys).0 (ground arith)),
  λ h. ground (arith, h, (equal_iff xs ys).1),
)

-- A block that holds data which another peer has confirmed keeps that data, whatever is sent for
-- it; a block without data takes what is sent; and data that nobody confirmed gives way to
-- different data.
receive-bytes :
    (iip : ℕ) (bytes : List ℕ) (b : ShareBlock)
    → (receive iip bytes b).0.bytes
      ≡ (if not (no_bytes b) && not (b.comfirm == 0) then b.bytes else bytes)
unfolding receive
receive-bytes iip bytes b = ground (arith, equal_iff b.bytes bytes)

-- `SetData` answers -2 exactly when the block held other data.
receive-differs :
    (iip : ℕ) (bytes : List ℕ) (b : ShareBlock)
    → ((receive iip bytes b).1 ≡ differs) ↔ ((no_bytes b ≡ false) × (b.bytes ≢ bytes))
unfolding receive
receive-differs iip bytes b = ground (arith, equal_iff b.bytes bytes)

pub find_first-update_first :
    (offset : ℕ) (f : ShareBlock → ShareBlock) (bs : List ShareBlock) (b : ShareBlock)
    → ((c : ShareBlock) → (f c).offset ≡ c.offset)
    → find_first (starts_at offset) bs ≡ some b
    → find_first (starts_at offset) (update_first (starts_at offset) f bs) ≡ some (f b)
unfolding find_first update_first starts_at
find_first-update_first offset f [] b k h = absurd (cc)
find_first-update_first offset f (c ∷ cs) b k h =
    ground (arith, k c, find_first-update_first offset f cs b k, ap f {x = c} {y = b})

pub offset-receive :
    (iip : ℕ) (bytes : List ℕ) (b : ShareBlock) → (receive iip bytes b).0.offset ≡ b.offset
unfolding receive
offset-receive iip bytes b = ground arith

-- `SetData` looks at the first block with the offset alone: without one it answers -1 and changes
-- nothing, and otherwise that block receives the data.
set_data_lem :
    (r : ShareRequest) (iip offset : ℕ) (bytes : List ℕ)
    → ((find_first (starts_at offset) r.blocks ≡ none)
        × (set_data r iip offset bytes ≡ (r, not_found)))
      ⊎ ((b : ShareBlock) × (find_first (starts_at offset) r.blocks ≡ some b)
          × (find_first (starts_at offset) (set_data r iip offset bytes).0.blocks
              ≡ some (receive iip bytes b).0)
          × ((set_data r iip offset bytes).1 ≡ (receive iip bytes b).1))
unfolding set_data
set_data_lem r iip offset bytes = elim (Option-cases (find_first (starts_at offset) r.blocks)) [
  | inl e ↦ inl (e, rw (e, set_data))
  | inr (b, e) ↦ inr (
    b,
    e,
    rw (e, set_data)
        (find_first-update_first offset (λ c. (receive iip bytes c).0) r.blocks b
          (offset-receive iip bytes) e),
    rw (e, set_data),
  )
]
