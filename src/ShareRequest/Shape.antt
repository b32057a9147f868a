-- ===== src/ShareRequest/Shape.antt =====
-- `CShareRequest::Decompose` against `CSingleRequest::Decompose`.
use benliud.Common.{ℕ, zero, suc, ◌+◌, ◌≡◌, refl, ap, ◌∷◌, map, ltb, Bool-cases, inl, inr}
use benliud.SingleRequest
use benliud.SingleRequest.{RequestBlock}
use benliud.ShareRequest.{ShareBlock, block_at, decompose}

abbrev pub place : ShareBlock → ℕ × ℕ
place b = (b.offset, b.length)

abbrev pub single_place : RequestBlock → ℕ × ℕ
single_place b = (b.offset, b.length)

-- A shared request cuts a piece into the same blocks as a single one, from any offset on and for
-- any number of rounds.
decompose-same :
    (fuel n offset : ℕ)
    → map place (decompose fuel n offset) ≡ map single_place (SingleRequest.decompose fuel n offset)
unfolding decompose block_at SingleRequest.decompose SingleRequest.block_at
decompose-same zero n offset = refl
decompose-same (suc fuel) n offset = elim (Bool-cases (ltb offset n)) [
  | inl e ↦ rw e (
      ap (◌∷◌ (place (block_at n offset)))
        (decompose-same fuel n (offset + (block_at n offset).length)))
  | inr e ↦ rw e
]
