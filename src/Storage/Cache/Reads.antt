-- ===== src/Storage/Cache/Reads.antt =====
-- What `ReadData` of benliud_bt/src/BTStorage.cpp gives, compared with the bytes of the pieces.
use benliud.Common.{
  ℕ, ◌+◌, ◌-◌, ◌*◌, ◌≤◌, ◌<◌, ◌≡◌, refl, ap, sym, ◌∙◌, subst, arith, Bool, List, [], ◌∷◌, ◌++◌,
  Option, none, some, length, drop, map, All, All-append, length-append, if_cases, some_cases,
}
use benliud.Common.Search.{
  find_first, find_first_sound, remove_first, remove_first-All, length-remove_first,
}
use benliud.Storage.Depot.{find_piece}
use benliud.Storage.Files.{read_data_from_disk}
use benliud.Storage.Files.Flat.{flat}
use benliud.Storage.Files.Pieces.{read_data_from_disk_lem}
use benliud.Storage.Cache.{
  BufferBlock, Disk, ReadResult, gives, substr, get_read_cache_size, has_data, read_waiting,
  read_data_from_cache, blocks_of, read_length, read_through, read_data, read_all,
}
use benliud.Storage.Cache.Slices.{
  slice, slice_of, length-take, length-drop, IsPart, blocks_of-IsPart, length-pop_over,
  pop_over-All,
}
use benliud.Storage.Cache.Served.{IsServed, has_data_lem, Waits, read_waiting-Waits}

-- The data is that of the piece, and the blocks that are kept are parts of pieces, as many as may be.
pub record IsRead (d : Disk) (content : ℕ → List ℕ) (index offset len : ℕ)
    (x : List BufferBlock × ReadResult) : Type 0 where
  pub got : x.1 ≡ gives (slice offset len (content index))
  pub parts : All (IsPart content) x.0
  pub few : length x.0 ≤ get_read_cache_size d

found-All {κ} :
    (P : BufferBlock → Type κ) (test : BufferBlock → Bool) (bs : List BufferBlock) (b : BufferBlock)
    → find_first test bs ≡ some b
    → All P bs
    → P b
unfolding find_first
found-All P test [] b e h = absurd (cc)
found-All P test (c ∷ cs) b e h =
    if_cases (λ (o : Option BufferBlock). o ≡ some b → P b) (test c) (some c) (find_first test cs)
      (λ _ f. subst P {x = c} {y = b} (cc) h.0) (λ _ f. found-All P test cs b f h.1) e

-- A read of a known piece, within the piece, of at most 2 * BUFFER_BLOCK_SIZE bytes.
pub record IsAsk (d : Disk) (content : ℕ → List ℕ) (r : ℕ × ℕ × ℕ) : Type 0 where
  pub known : r.0 < d.count
  pub inside : r.1 + r.2 ≤ length (content r.0)
  pub short : r.2 ≤ 262144

-- The reads of a storage that caches nothing.
abbrev pub plain_reads : (ℕ → List ℕ) → List (ℕ × ℕ × ℕ) → List ReadResult
plain_reads content rs = map (λ r. gives (slice r.1 r.2 (content r.0))) rs

module _ (d : Disk) (content : ℕ → List ℕ) (s : IsServed d content) where
  read_length_lem :
      (index offset len : ℕ)
      → index < d.count
      → offset + len ≤ length (content index)
      → len ≤ 262144
      → (offset + read_length d index offset ≤ length (content index))
        × (len ≤ read_length d index offset)
  unfolding read_length
  read_length_lem index offset len k i l = ground (arith, s.sized index k, s.small index, i, l)

  -- A read that no cache serves.
  read_through-IsRead :
      (bs : List BufferBlock) (index offset len : ℕ)
      → All (IsPart content) bs
      → index < d.count
      → offset + len ≤ length (content index)
      → len ≤ 262144
      → find_piece index d.write_cache ≡ none
      → IsRead d content index offset len (read_through d bs index offset len)
  unfolding read_through
  read_through-IsRead bs index offset len parts k i l w =
      let at = index * d.piece_length + offset in
      let n = read_length d index offset in
      let bounds = read_length_lem index offset len k i l in
      let on_disk = s.stored index k w in
      let whole : slice offset n (content index) ≡ slice at n (flat d.files) =
        slice_of (flat d.files) (content index) (index * d.piece_length) offset n at on_disk.1
          bounds.0 refl in
      let found : read_data_from_disk d.piece_length d.io d.files index offset n
          ≡ some (slice offset n (content index)) =
        read_data_from_disk_lem d.piece_length d.io d.files index offset n s.working s.ready
          (omega (arith, bounds.0, on_disk.0))
        ∙ ap some (sym whole) in
      some_cases (IsRead d content index offset len)
        (read_data_from_disk d.piece_length d.io d.files index offset n) _ _ (λ e. absurd (cc))
        (λ bytes e.
          let same : bytes ≡ slice offset n (content index) = cc in
          let size : length bytes ≡ n =
            ap {A = List ℕ} length same
            ∙ length-take n (drop offset (content index))
                (omega (arith, length-drop offset (content index), bounds.0)) in
          let part : bytes ≡ slice offset (length bytes) (content index) =
            same ∙ ap (λ m. slice offset m (content index)) (sym size) in
          let blocks = blocks_of (length bytes) index offset 0 bytes in
          let mine : All (IsPart content) blocks =
            blocks_of-IsPart content (length bytes) index offset 0 bytes (s.small index)
              (omega (arith, size, bounds.0))
              (part
                ∙ ap (λ o. slice o (length bytes) (content index)) {x = offset}
                    {y = offset + 0 * 131072} (omega arith)) in
          record {
            got = ap gives (
                slice_of (content index) bytes offset 0 len offset part
                  (omega (arith, size, bounds.1)) (omega arith));
            parts =
                pop_over-All (IsPart content) (get_read_cache_size d) (bs ++ blocks)
                  (All-append (IsPart content) bs blocks parts mine);
            few = length-pop_over (get_read_cache_size d) (bs ++ blocks);
          })

  -- A read of at most 2 * BUFFER_BLOCK_SIZE bytes within a piece gives the bytes of the piece.
  read_data-IsRead :
      (bs : List BufferBlock) (index offset len : ℕ)
      → All (IsPart content) bs
      → length bs ≤ get_read_cache_size d
      → index < d.count
      → offset + len ≤ length (content index)
      → len ≤ 262144
      → IsRead d content index offset len (read_data d bs index offset len)
  unfolding read_data read_data_from_cache
  read_data-IsRead bs index offset len parts few k i l =
      let P = IsRead d content index offset len in
      let test = has_data index offset len in
      some_cases
        (λ (c : List BufferBlock × Option ReadResult).
          P (elim c.1 [ some x ↦ (c.0, x) | none ↦ read_through d bs index offset len ]))
        (find_first test bs) (bs, read_waiting d index offset len)
        (λ b. (remove_first test bs ++ b ∷ [], some (substr b.bytes (offset - b.offset) len)))
        (λ _.
          some_cases P (read_waiting d index offset len) _ _
            (λ e. read_through-IsRead bs index offset len parts k i l (
              subst (Waits d content s index offset len) e
                (read_waiting-Waits d content s index offset len i)))
            (λ x e. record {
              got =
                  (subst (Waits d content s index offset len) e
                    (read_waiting-Waits d content s index offset len i));
              parts = parts;
              few = few;
            }))
        (λ b e.
          let part = found-All (IsPart content) test bs b e parts in
          record {
            got = has_data_lem d content s index offset len b i part (find_first_sound test bs b e);
            parts =
                All-append (IsPart content) (remove_first test bs) (b ∷ [])
                  (remove_first-All (IsPart content) test bs parts) (part, tt);
            few = omega (
              arith,
              few,
              length-remove_first test bs b e,
              length-append (remove_first test bs) (b ∷ []),
            );
          })

-- However many reads go before, and whatever blocks they left in the cache, each read gives the bytes
-- of its piece, as if nothing was cached, and the cache has as many blocks as it may have at most. The
-- caches and the disk hold the pieces, and every transfer works; the blocks at the start are parts of
-- pieces and not too many, and a read is within a known piece and not longer than 2 * BUFFER_BLOCK_SIZE.
pub read_all-IsRead :
    (d : Disk) (content : ℕ → List ℕ) (bs : List BufferBlock) (rs : List (ℕ × ℕ × ℕ))
    → IsServed d content
    → All (IsPart content) bs
    → length bs ≤ get_read_cache_size d
    → All (IsAsk d content) rs
    → ((read_all d bs rs).1 ≡ plain_reads content rs)
      × (length (read_all d bs rs).0 ≤ get_read_cache_size d)
unfolding read_all
read_all-IsRead d content bs [] s parts few a = (refl, few)
read_all-IsRead d content bs ((index, offset, len) ∷ rs) s parts few a =
    let first =
      read_data-IsRead d content s bs index offset len parts few a.0.known a.0.inside a.0.short in
    let rest =
      read_all-IsRead d content (read_data d bs index offset len).0 rs s first.parts first.few
        a.1 in
    (
      ap (◌∷◌ (read_data d bs index offset len).1) rest.0
          ∙ ap (λ x. x ∷ plain_reads content rs) first.got,
      rest.1,
    )
