-- ===== src/Storage/Cache/Slices.antt =====
-- The part of a piece between two offsets, and parts of it, as benliud_bt/src/BTStorage.cpp keeps them
-- in `m_ReadBufferList`.
use benliud.Common.{
  ℕ, zero, suc, ◌+◌, ◌*◌, ◌≤◌, ◌<◌, ◌≡◌, ap, sym, ◌∙◌, arith, List, [], ◌∷◌, length, take, drop,
  All, if_cases, leb, ltb, ◌==◌, ◌%◌, ◌^◌,
}
pub use benliud.Common.Slices.{slice, slice-slice, length-take, length-drop, take_whole, slice_of}
use benliud.Storage.Cache.{BufferBlock, buffer_block_size, blocks_of, pop_over}

-- The block is a part of its piece.
pub record IsPart (content : ℕ → List ℕ) (b : BufferBlock) : Type 0 where
  pub inside : b.offset + length b.bytes ≤ length (content b.p_index)
  pub part : b.bytes ≡ slice b.offset (length b.bytes) (content b.p_index)

module _ (content : ℕ → List ℕ) where
  IsPart-at :
      (index at s : ℕ) (bytes : List ℕ)
      → s ≡ at
      → s + length bytes ≤ length (content index)
      → bytes ≡ slice s (length bytes) (content index)
      → IsPart content (record { p_index = index; offset = at; bytes = bytes })
  IsPart-at index at s bytes a h e = record {
    inside = omega (arith, a, h);
    part = e ∙ ap (λ k. slice k (length bytes) (content index)) a;
  }

  -- The blocks that what was read from the disk is cut into are parts of the piece.
  pub blocks_of-IsPart :
      (fuel index offset i : ℕ) (bytes : List ℕ)
      → length (content index) < 4294967296
      → offset + i * 131072 + length bytes ≤ length (content index)
      → bytes ≡ slice (offset + i * 131072) (length bytes) (content index)
      → All (IsPart content) (blocks_of fuel index offset i bytes)
  unfolding blocks_of
  blocks_of-IsPart zero index offset i bytes l h e = tt
  blocks_of-IsPart (suc fuel) index offset i bytes l h e =
      let at = (offset + i * buffer_block_size) % 2 ^ 32 in
      let s = offset + i * 131072 in
      let P = All (IsPart content) in
      let rest = blocks_of fuel index offset (i + 1) (drop buffer_block_size bytes) in
      let small : s ≡ at = omega (arith, l, h) in
      if_cases P (length bytes == 0) [] _ (λ _. tt)
        (λ _.
          if_cases P (leb buffer_block_size (length bytes))
            (record { p_index = index; offset = at; bytes = take buffer_block_size bytes } ∷ rest)
            (record { p_index = index; offset = at; bytes = bytes } ∷ [])
            (λ more.
              let le : 131072 ≤ length bytes = ground (arith, more) in
              let cut = length-take 131072 bytes le in
              let left = length-drop 131072 bytes in
              (
                IsPart-at index at s (take buffer_block_size bytes) small
                    (omega (arith, cut, le, h))
                    (slice_of (content index) bytes s 0 131072 s e (omega (arith, le)) (omega arith)
                      ∙ ap (λ n. slice s n (content index)) (sym cut)),
                blocks_of-IsPart fuel index offset (i + 1) (drop buffer_block_size bytes) l
                    (omega (arith, left, le, h))
                    (sym (take_whole (drop buffer_block_size bytes))
                      ∙ slice_of (content index) bytes s 131072
                          (length (drop buffer_block_size bytes)) (offset + (i + 1) * 131072) e
                          (omega (arith, left, le)) (omega arith)),
              ))
            (λ _. (IsPart-at index at s bytes small h e, tt)))

-- Blocks are taken off the front until no more are left than the cache may have.
pub length-pop_over : (limit : ℕ) (bs : List BufferBlock) → length (pop_over limit bs) ≤ limit
unfolding pop_over
length-pop_over limit [] = omega arith
length-pop_over limit (b ∷ bs) =
    if_cases (λ (cs : List BufferBlock). length cs ≤ limit) (ltb limit (length (b ∷ bs))) _ _
      (λ _. length-pop_over limit bs) (λ e. ground (arith, e))

pub pop_over-All :
    (P : BufferBlock → Type 0) (limit : ℕ) (bs : List BufferBlock)
    → All P bs
    → All P (pop_over limit bs)
unfolding pop_over
pop_over-All P limit [] h = tt
pop_over-All P limit (b ∷ bs) h =
    if_cases (All P) (ltb limit (length (b ∷ bs))) _ _ (λ _. pop_over-All P limit bs h.1) (λ _. h)
