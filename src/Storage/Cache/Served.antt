-- ===== src/Storage/Cache/Served.antt =====
-- The blocks and the caches of benliud_bt/src/BTStorage.cpp that a read may find its data in.
use benliud.Common.{
  ℕ, ◌+◌, ◌-◌, ◌*◌, ◌≤◌, ◌<◌, ◌≡◌, ap, sym, ◌∙◌, arith, true, List, Option, none, some, length,
  take, drop, ltb, if_cases, some_cases, if_false,
}
use benliud.Storage.Depot.{find_piece}
use benliud.Storage.Files.{works, get_piece_length}
use benliud.Storage.Files.Flat.{AreReady, flat}
use benliud.Storage.Cache.{
  BufferBlock, Disk, ReadResult, gives, throws, substr, is_edge_piece, has_data, find_substr,
  read_waiting,
}
use benliud.Storage.Cache.Slices.{slice, slice_of, IsPart}

-- The pieces have these bytes: in the caches of the storage, and on the disk where the write cache has
-- no newer ones. Every transfer works, and the files are all wanted, open and of their full size.
pub record IsServed (d : Disk) (content : ℕ → List ℕ) : Type 0 where
  pub working : (n : ℕ) → d.io n ≡ works
  pub ready : AreReady 0 d.files
  pub small : (i : ℕ) → length (content i) < 4294967296
  pub sized :
      (i : ℕ) → i < d.count → get_piece_length d.piece_length d.total d.count i ≡ length (content i)
  pub edges : (i : ℕ) (bytes : List ℕ) → find_piece i d.edge_cache ≡ some bytes → bytes ≡ content i
  pub writes :
      (i : ℕ) (bytes : List ℕ) → find_piece i d.write_cache ≡ some bytes → bytes ≡ content i
  pub stored :
      (i : ℕ)
      → i < d.count
      → find_piece i d.write_cache ≡ none
      → (length (content i) + i * d.piece_length ≤ length (flat d.files))
        × (content i ≡ slice (i * d.piece_length) (length (content i)) (flat d.files))

module _ (d : Disk) (content : ℕ → List ℕ) (s : IsServed d content) where
  pub has_data_lem :
      (index offset len : ℕ) (b : BufferBlock)
      → offset + len ≤ length (content index)
      → IsPart content b
      → has_data index offset len b ≡ true
      → substr b.bytes (offset - b.offset) len ≡ gives (slice offset len (content index))
  unfolding has_data substr
  has_data_lem index offset len b i p e =
      let same : b.p_index ≡ index = ground (arith, e) in
      let low : b.offset ≤ offset = ground (arith, e) in
      let high : offset + len ≤ b.offset + length b.bytes =
        ground (arith, e, i, p.inside, s.small b.p_index, s.small index) in
      if_false (ltb (length b.bytes) (offset - b.offset)) throws
        (gives (take len (drop (offset - b.offset) b.bytes))) (ground (arith, low, high))
      ∙ ap gives (
          slice_of (content b.p_index) b.bytes b.offset (offset - b.offset) len offset p.part
            (omega (arith, low, high)) (omega (arith, low))
          ∙ ap (λ k. slice offset len (content k)) same)

  -- What a cache of whole pieces has is the piece's, and a piece that no cache has is on the disk.
  abbrev pub Waits : ℕ → ℕ → ℕ → Option ReadResult → Type 0
  Waits index offset len none = find_piece index d.write_cache ≡ none
  Waits index offset len (some x) = x ≡ gives (slice offset len (content index))

  substr_whole :
      (bytes : List ℕ) (index offset len : ℕ)
      → offset + len ≤ length (content index)
      → bytes ≡ content index
      → substr bytes offset len ≡ gives (slice offset len (content index))
  unfolding substr
  substr_whole bytes index offset len i e =
      let size : length bytes ≡ length (content index) = ap {A = List ℕ} length e in
      if_false (ltb (length bytes) offset) throws (gives (slice offset len bytes))
        (ground (arith, size, i))
      ∙ ap (λ b. gives (slice offset len b)) e

  find_substr-Waits :
      (index offset len : ℕ)
      → offset + len ≤ length (content index)
      → Waits index offset len (find_substr d.write_cache index offset len)
  unfolding find_substr
  find_substr-Waits index offset len i =
      some_cases (Waits index offset len) (find_piece index d.write_cache) _ _ (λ e. e)
        (λ bytes e. substr_whole bytes index offset len i (s.writes index bytes e))

  find_substr-edge :
      (index offset len : ℕ) (x : ReadResult)
      → offset + len ≤ length (content index)
      → find_substr d.edge_cache index offset len ≡ some x
      → x ≡ gives (slice offset len (content index))
  unfolding find_substr
  find_substr-edge index offset len x i h =
      some_cases
        (λ (r : Option ReadResult). r ≡ some x → x ≡ gives (slice offset len (content index)))
        (find_piece index d.edge_cache) none (λ bytes. some (substr bytes offset len))
        (λ _ f. absurd (cc))
        (λ bytes e f.
          let same : substr bytes offset len ≡ x = cc in
          sym same ∙ substr_whole bytes index offset len i (s.edges index bytes e))
        h

  pub read_waiting-Waits :
      (index offset len : ℕ)
      → offset + len ≤ length (content index)
      → Waits index offset len (read_waiting d index offset len)
  unfolding read_waiting
  read_waiting-Waits index offset len i =
      let P = Waits index offset len in
      if_cases P (is_edge_piece d.piece_length d.files index) _ _
        (λ _.
          some_cases P (find_substr d.edge_cache index offset len) _ _
            (λ _. find_substr-Waits index offset len i)
            (λ x e. find_substr-edge index offset len x i e))
        (λ _. find_substr-Waits index offset len i)
