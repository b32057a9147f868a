-- ===== src/Storage/Cache/Wrapping.antt =====
-- Offsets and lengths whose sum wraps around, in `ReadDataFromCache` of benliud_bt/src/BTStorage.cpp.
use benliud.Common.{
  ℕ, ◌+◌, ◌-◌, ◌<◌, ◌≡◌, subst, arith, true, List, [], ◌∷◌, ◌++◌, Option, none, some, length, take,
  drop, ltb, some_cases, if_true,
}
use benliud.Common.Search.{find_first, remove_first}
use benliud.Storage.Cache.{
  BufferBlock, Disk, ReadResult, gives, throws, substr, has_data, read_waiting,
  read_data_from_cache, read_through, read_data,
}

-- A read whose offset and length wrap around to 0 throws when the first block that is kept is of the
-- same piece and ends before the offset: the sum of offset and length, 0 by then, is not past the end of
-- the block, and its bytes are taken from behind their end.
pub read_data-throws :
    (d : Disk) (b : BufferBlock) (bs : List BufferBlock) (offset len : ℕ)
    → b.offset + length b.bytes < offset
    → offset + len ≡ 4294967296
    → (read_data d (b ∷ bs) b.p_index offset len).1 ≡ throws
unfolding read_data read_data_from_cache find_first has_data substr
read_data-throws d b bs offset len h e =
    let test = has_data b.p_index offset len in
    let hit : test b ≡ true = ground (arith, h, e) in
    let found : find_first test (b ∷ bs) ≡ some b = if_true (test b) _ _ hit in
    some_cases
      (λ (c : List BufferBlock × Option ReadResult).
        (elim c.1 as (λ _. List BufferBlock × ReadResult) [
          | some x ↦ (c.0, x)
          | none ↦ read_through d (b ∷ bs) b.p_index offset len
        ]).1
        ≡ throws)
      (find_first test (b ∷ bs)) (b ∷ bs, read_waiting d b.p_index offset len)
      (λ c. (remove_first test (b ∷ bs) ++ c ∷ [], some (substr c.bytes (offset - c.offset) len)))
      (λ f. absurd (cc))
      (λ c f.
        let same : b ≡ c = cc in
        subst (λ k. substr k.bytes (offset - k.offset) len ≡ throws) same
          (if_true (ltb (length b.bytes) (offset - b.offset)) throws
            (gives (take len (drop (offset - b.offset) b.bytes))) (ground (arith, h))))
