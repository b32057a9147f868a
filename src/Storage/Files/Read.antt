-- ===== src/Storage/Files/Read.antt =====
-- `ReadDataFromDisk` of benliud_bt/src/BTStorage.cpp reads the files as one run of bytes.
use benliud.Common.{
  ℕ, zero, suc, ◌+◌, ◌-◌, ◌≤◌, ◌<◌, ◌≡◌, refl, ap, ◌∙◌, sym, true, false, not, arith, List, ◌++◌,
  none, some, length, length-take, take, drop, replicate, drop-drop, leb, ◌==◌, ==_iff,
  if◌then◌else◌, Bool-cases, inl, inr,
}
use benliud.Storage.Files.{
  StorageFile, Io, works, chunk, get_file_info_by_offset, read_chunk, read_loop,
}
use benliud.Storage.Files.Bytes.{take_split}
use benliud.Storage.Files.Flat.{AreReady, flat, Found, find_file}
use benliud.Storage.Files.Refine.{chunk_lem, length_drop}

reads_flat :
    (files : List StorageFile) (at k : ℕ) (f : StorageFile)
    → Found 0 at files f
    → at - f.offset + k ≤ f.size
    → take k (drop (at - f.offset) f.content) ≡ take k (drop at (flat files))
reads_flat files at k f found h =
    found.reads k h ∙ ap (λ n. take k (drop n (flat files))) {x = at - 0} {y = at} (omega arith)

read_chunk_open :
    (f : StorageFile) (at rear : ℕ)
    → f.is_open ≡ true
    → let found = take (chunk f at rear) (drop (at - f.offset) f.content) in
      read_chunk works f at rear ≡ (if length found == chunk f at rear then some found else none)
unfolding read_chunk
read_chunk_open f at rear h =
    let found = take (chunk f at rear) (drop (at - f.offset) f.content) in
    ap
      (λ b.
        if not b
        then (if f.vfile then some (replicate (chunk f at rear) 0) else none)
        else if length found == chunk f at rear
        then some found
        else none)
      h

read_chunk_lem :
    (files : List StorageFile) (at rear : ℕ) (f : StorageFile)
    → Found 0 at files f
    → at - f.offset + chunk f at rear ≤ f.size
    → read_chunk works f at rear ≡ some (take (chunk f at rear) (drop at (flat files)))
read_chunk_lem files at rear f found inside =
    let k = chunk f at rear in
    let bytes = take k (drop (at - f.offset) f.content) in
    let full : (length bytes == k) ≡ true = (==_iff _ _).1 (
      omega (
        arith,
        length-take k (drop (at - f.offset) f.content),
        length_drop (at - f.offset) f.content,
        found.ready.whole,
        inside,
      )) in
    read_chunk_open f at rear found.ready.opened
    ∙ rw full (ap some (reads_flat files at k f found inside))

read_round :
    (fuel : ℕ) (io : ℕ → Io) (files : List StorageFile) (rear at : ℕ) (f : StorageFile)
    (bytes later : List ℕ)
    → leb rear at ≡ false
    → get_file_info_by_offset files at ≡ some f
    → read_chunk (io at) f at rear ≡ some bytes
    → read_loop fuel io files rear (at + chunk f at rear) ≡ some later
    → read_loop (suc fuel) io files rear at ≡ some (bytes ++ later)
unfolding read_loop
read_round fuel io files rear at f bytes later e found here rest =
    rw (e, found, read_loop) (rw (here, read_loop) (rw (rest, read_loop) refl))

pub read_loop_lem :
    (fuel : ℕ) (io : ℕ → Io) (files : List StorageFile) (rear at : ℕ)
    → ((n : ℕ) → io n ≡ works)
    → AreReady 0 files
    → at ≤ rear
    → rear ≤ length (flat files)
    → rear - at ≤ fuel
    → read_loop fuel io files rear at ≡ some (take (rear - at) (drop at (flat files)))
unfolding read_loop
read_loop_lem zero io files rear at w r h room enough =
    ap (λ n. some (take n (drop at (flat files)))) {x = 0} (omega arith)
read_loop_lem (suc fuel) io files rear at w r h room enough = elim (Bool-cases (leb rear at)) [
  | inl e ↦ rw e (ap (λ n. some (take n (drop at (flat files)))) {x = 0} (ground (arith, e)))
  | inr e ↦
      let below : at < rear = ground (arith, e) in
      let (f, found) = find_file 0 at files r (omega arith) (omega (arith, below, room)) in
      let (some_bytes, short, inside) = chunk_lem f at rear below found.after found.before in
      let k = chunk f at rear in
      read_round fuel io files rear at f _ _ e found.found
        (ap (λ o. read_chunk o f at rear) (w at) ∙ read_chunk_lem files at rear f found inside)
        (read_loop_lem fuel io files rear (at + k) w r (omega (arith, short, below)) room
          (omega (arith, enough, some_bytes, below)))
      ∙ ap some (
          ap (λ xs. take k (drop at (flat files)) ++ take (rear - (at + k)) xs)
            (sym (drop-drop at k (flat files)))
          ∙ sym (take_split k (rear - (at + k)) (drop at (flat files)))
          ∙ ap (λ n. take n (drop at (flat files))) (omega (arith, short, below)))
]
