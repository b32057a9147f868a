-- ===== src/SingleRequest/Tiles.antt =====
-- `Decompose` of SingleRequest.cpp: the blocks lie side by side and make up the piece.
use benliud.Common.{
  ℕ, zero, suc, ◌+◌, ◌-◌, ◌≤◌, ◌<◌, ◌≡◌, refl, sym, subst, ◌∙◌, Bool, arith, List, [], ◌∷◌, map,
  length, ltb, Bool-cases, inl, inr,
}
use benliud.Common.Search.{update_first}
use benliud.SingleRequest.{RequestBlock, chunk_len, block_at, decompose}

-- Blocks of at most `_CHUNK_LEN` bytes, none empty, from one offset to the end without a gap.
abbrev pub Tiled : ℕ → ℕ → List RequestBlock → Type 0
Tiled offset end [] = offset ≡ end
Tiled offset end (b ∷ bs) =
    (b.offset ≡ offset) × (0 < b.length) × (b.length ≤ chunk_len) × Tiled (offset + b.length) end bs

-- The length that `Decompose` gives to a block inside the piece.
block_at-length :
    (n offset : ℕ)
    → offset < n
    → (0 < (block_at n offset).length)
      × ((block_at n offset).length ≤ chunk_len)
      × (offset + (block_at n offset).length ≤ n)
unfolding block_at
block_at-length n offset h = ground arith

block_at-offset : (n offset : ℕ) → (block_at n offset).offset ≡ offset
unfolding block_at
block_at-offset n offset = refl

-- From an offset within the piece, with fuel for the bytes that are left, the blocks of `Decompose`
-- lie side by side to the end of the piece, none empty and none longer than `_CHUNK_LEN`, and there
-- are no more of them than the fuel.
pub decompose-Tiled :
    (fuel n offset : ℕ)
    → offset ≤ n
    → n - offset ≤ fuel
    → Tiled offset n (decompose fuel n offset) × (length (decompose fuel n offset) ≤ fuel)
unfolding decompose
decompose-Tiled zero n offset h k = (omega arith, omega arith)
decompose-Tiled (suc fuel) n offset h k = elim (Bool-cases (ltb offset n)) [
  | inl e ↦
      let len = block_at-length n offset (ground arith) in
      let rest =
        decompose-Tiled fuel n (offset + (block_at n offset).length) len.2 (omega (arith, len)) in
      rw e ((block_at-offset n offset, len.0, len.1, rest.0), omega (arith, rest.1))
  | inr e ↦ rw e (ground arith, omega arith)
]

-- A change of a block that leaves its place alone.
abbrev pub KeepsShape : (RequestBlock → RequestBlock) → Type 0
KeepsShape f = (b : RequestBlock) → ((f b).offset ≡ b.offset) × ((f b).length ≡ b.length)

pub Tiled-map :
    (f : RequestBlock → RequestBlock) (offset end : ℕ) (bs : List RequestBlock)
    → KeepsShape f
    → Tiled offset end bs
    → Tiled offset end (map f bs)
Tiled-map f offset end [] k t = t
Tiled-map f offset end (b ∷ bs) k t = (
  (k b).0 ∙ t.0,
  omega (arith, k b, t.1),
  omega (arith, k b, t.2),
  subst (λ l. Tiled (offset + l) end (map f bs)) (sym (k b).1)
      (Tiled-map f (offset + b.length) end bs k t.3),
)

pub Tiled-update_first :
    (test : RequestBlock → Bool) (f : RequestBlock → RequestBlock) (offset end : ℕ)
    (bs : List RequestBlock)
    → KeepsShape f
    → Tiled offset end bs
    → Tiled offset end (update_first test f bs)
unfolding update_first
Tiled-update_first test f offset end [] k t = t
Tiled-update_first test f offset end (b ∷ bs) k t = elim (Bool-cases (test b)) [
  | inl e ↦ rw e (
    (k b).0 ∙ t.0,
    omega (arith, k b, t.1),
    omega (arith, k b, t.2),
    subst (λ l. Tiled (offset + l) end bs) (sym (k b).1) t.3,
  )
  | inr e ↦ rw e (t.0, t.1, t.2, Tiled-update_first test f (offset + b.length) end bs k t.3)
]
