-- ===== src/Storage/Files/Flat.antt =====
-- The files of benliud_bt/src/BTStorage.cpp as one run of bytes, and the file that `GetFileInfoByOffset`
-- finds in it.
use benliud.Common.{
  ℕ, ◌+◌, ◌-◌, ◌≤◌, ◌<◌, ◌≡◌, refl, ap, ◌∙◌, sym, subst, true, false, arith, List, [], ◌∷◌, ◌++◌,
  some, length, length-append, take, drop, ltb, Bool-cases, inl, inr, ltb→lt, ltb→ge,
}
use benliud.Common.Search.{find_first, update_first}
use benliud.Storage.Files.{
  StorageFile, covers, get_file_info_by_offset, overwrite, write_at, is_skipped,
}
use benliud.Storage.Files.Bytes.{
  length-overwrite, overwrite-append_left, overwrite-append_right, take-drop-append_left,
  drop-append_right,
}

-- A file that is wanted, open and on the disk in its full size.
pub record Ready (start : ℕ) (f : StorageFile) : Type 0 where
  pub placed : f.offset ≡ start
  pub whole : length f.content ≡ f.size
  pub opened : f.is_open ≡ true
  pub used : is_skipped f ≡ false

-- Such files from an offset on, without a gap.
unfoldable pub AreReady : ℕ → List StorageFile → Type 0
AreReady start [] = Unit
AreReady start (f ∷ fs) = Ready start f × AreReady (start + f.size) fs

-- Their bytes.
unfoldable pub flat : List StorageFile → List ℕ
flat [] = []
flat (f ∷ fs) = f.content ++ flat fs

-- The file at an offset, and what reading and writing in it means for the bytes of all files.
pub record Found (start at : ℕ) (fs : List StorageFile) (f : StorageFile) : Type 0 where
  pub found : get_file_info_by_offset fs at ≡ some f
  pub ready : Ready f.offset f
  pub after : f.offset ≤ at
  pub before : at < f.offset + f.size
  pub reads :
      (k : ℕ)
      → at - f.offset + k ≤ f.size
      → take k (drop (at - f.offset) f.content) ≡ take k (drop (at - start) (flat fs))
  pub writes :
      (bs : List ℕ)
      → at - f.offset + length bs ≤ f.size
      → flat (update_first (covers at) (write_at (at - f.offset) bs) fs)
        ≡ overwrite (at - start) bs (flat fs)
  pub stays :
      (bs : List ℕ)
      → at - f.offset + length bs ≤ f.size
      → AreReady start (update_first (covers at) (write_at (at - f.offset) bs) fs)

write_at-Ready :
    (start n : ℕ) (bs : List ℕ) (f : StorageFile)
    → Ready start f
    → n + length bs ≤ f.size
    → Ready start (write_at n bs f)
unfolding write_at is_skipped
write_at-Ready start n bs f r h = record {
  placed = r.placed;
  whole = length-overwrite n bs f.content (omega (arith, r.whole, h)) ∙ r.whole;
  opened = r.opened;
  used = r.used;
}

covers_here :
    (at : ℕ) (f : StorageFile) → f.offset ≤ at → at < f.offset + f.size → covers at f ≡ true
unfolding covers
covers_here at f h k = ground arith

covers_not : (at : ℕ) (f : StorageFile) → f.offset + f.size ≤ at → covers at f ≡ false
unfolding covers
covers_not at f h = ground arith

Found-here :
    (start at : ℕ) (g : StorageFile) (fs : List StorageFile)
    → AreReady start (g ∷ fs)
    → start ≤ at
    → at < start + g.size
    → Found start at (g ∷ fs) g
unfolding AreReady flat get_file_info_by_offset find_first update_first write_at
Found-here start at g fs r lo hi =
    let here = covers_here at g (omega (arith, r.0.placed, lo)) (omega (arith, r.0.placed, hi)) in
    record {
      found = rw here refl;
      ready = subst (λ n. Ready n g) (sym r.0.placed) r.0;
      after = omega (arith, r.0.placed, lo);
      before = omega (arith, r.0.placed, hi);
      reads = λ k h.
          sym (
            take-drop-append_left (at - g.offset) k g.content (flat fs)
              (omega (arith, h, r.0.whole)))
          ∙ ap (λ n. take k (drop (at - n) (g.content ++ flat fs))) r.0.placed;
      writes = λ bs h. rw here (
          sym (
            overwrite-append_left (at - g.offset) bs g.content (flat fs)
              (omega (arith, h, r.0.whole)))
          ∙ ap (λ n. overwrite (at - n) bs (g.content ++ flat fs)) r.0.placed);
      stays = λ bs h. rw here (write_at-Ready start (at - g.offset) bs g r.0 h, r.1);
    }

Found-later :
    (start at : ℕ) (g : StorageFile) (fs : List StorageFile) (f : StorageFile)
    → AreReady start (g ∷ fs)
    → start + g.size ≤ at
    → Found (start + g.size) at fs f
    → Found start at (g ∷ fs) f
unfolding AreReady flat get_file_info_by_offset find_first update_first
Found-later start at g fs f r hi w =
    let other = covers_not at g (omega (arith, r.0.placed, hi)) in
    let place : at - start ≡ length g.content + (at - (start + g.size)) =
      omega (arith, hi, r.0.whole) in
    record {
      found = rw other w.found;
      ready = w.ready;
      after = w.after;
      before = w.before;
      reads = λ k h.
          w.reads k h
          ∙ ap (take k) (
              sym (
                ap (λ n. drop n (g.content ++ flat fs)) place
                ∙ drop-append_right (at - (start + g.size)) g.content (flat fs)));
      writes = λ bs h. rw other (
          ap (λ x. g.content ++ x) (w.writes bs h)
          ∙ sym (
              ap (λ n. overwrite n bs (g.content ++ flat fs)) place
              ∙ overwrite-append_right (at - (start + g.size)) bs g.content (flat fs)));
      stays = λ bs h. rw other (r.0, w.stays bs h);
    }

pub find_file :
    (start at : ℕ) (fs : List StorageFile)
    → AreReady start fs
    → start ≤ at
    → at < start + length (flat fs)
    → (f : StorageFile) × Found start at fs f
unfolding AreReady flat
find_file start at [] r lo hi = absurd (omega arith)
find_file start at (g ∷ fs) r lo hi = elim (Bool-cases (ltb at (start + g.size))) [
  | inl e ↦ (g, Found-here start at g fs r lo (ltb→lt _ _ e))
  | inr e ↦
      let (f, w) =
        find_file (start + g.size) at fs r.1 (ltb→ge _ _ e)
          (omega (arith, hi, length-append g.content (flat fs), r.0.whole)) in
      (f, Found-later start at g fs f r (ltb→ge _ _ e) w)
]
