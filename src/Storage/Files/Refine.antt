-- ===== src/Storage/Files/Refine.antt =====
-- `WritePieceToDisk` of benliud_bt/src/BTStorage.cpp writes to the files as to one run of bytes.
use benliud.Common.{
  ℕ, zero, suc, ◌+◌, ◌-◌, ◌≤◌, ◌<◌, ◌≡◌, refl, ap, ap₂, ◌∙◌, sym, subst, false, arith, List, [],
  ◌∷◌, length, length-take, take, drop, drop-drop, drop-length, leb, ltb, Bool-cases, inl, inr,
  ltb→lt, ltb→ge,
}
use benliud.Common.Int.{ℤ, pos}
use benliud.Common.Search.{update_first}
use benliud.Storage.Files.{StorageFile, Io, works, covers, chunk, overwrite, write_at, write_loop}
use benliud.Storage.Files.Bytes.{length-overwrite, overwrite_twice}
use benliud.Storage.Files.Flat.{AreReady, flat, Found, find_file}

pub chunk_lem :
    (f : StorageFile) (at rear : ℕ)
    → at < rear
    → f.offset ≤ at
    → at < f.offset + f.size
    → (1 ≤ chunk f at rear)
      × (chunk f at rear ≤ rear - at)
      × (at - f.offset + chunk f at rear ≤ f.size)
unfolding chunk
chunk_lem f at rear h lo hi = elim (Bool-cases (ltb (rear - at) (f.size - (at - f.offset)))) [
  | inl e ↦ rw e (omega arith, omega arith, omega (arith, ltb→lt _ _ e))
  | inr e ↦ rw e (omega arith, omega (arith, ltb→ge _ _ e), omega arith)
]

overwrite_nil : (n : ℕ) (cs : List ℕ) → n ≤ length cs → overwrite n [] cs ≡ cs
unfolding overwrite
overwrite_nil zero cs h = refl
overwrite_nil (suc n) [] h = absurd (omega arith)
overwrite_nil (suc n) (c ∷ cs) h = ap (◌∷◌ c) (overwrite_nil n cs (omega arith))

pub length_drop : (n : ℕ) (xs : List ℕ) → length (drop n xs) ≡ length xs - n
length_drop zero xs = omega arith
length_drop (suc n) [] = omega arith
length_drop (suc n) (x ∷ xs) = omega (arith, length_drop n xs)

-- What a write leaves: such files again, and their bytes.
pub record Written (files : List StorageFile) (at : ℕ) (bytes : List ℕ) (r : List StorageFile × ℤ)
    : Type 0 where
  pub code : r.1 ≡ pos 0
  pub ready : AreReady 0 r.0
  pub holds : flat r.0 ≡ overwrite at bytes (flat files)

write_round :
    (fuel : ℕ) (io : ℕ → Io) (files : List StorageFile) (piece : List ℕ) (head rear at : ℕ)
    (f : StorageFile)
    → leb rear at ≡ false
    → io at ≡ works
    → Found 0 at files f
    → write_loop (suc fuel) io files piece head rear at
      ≡ write_loop fuel io
          (update_first
            (covers at)
            (write_at (at - f.offset) (take (chunk f at rear) (drop (at - head) piece)))
            files)
          piece
          head
          rear
          (at + chunk f at rear)
unfolding write_loop
write_round fuel io files piece head rear at f e w found =
    rw (e, found.found, write_loop) (rw found.ready.used (rw (w, write_loop) refl))

done-Written :
    (files : List StorageFile) (piece : List ℕ) (head at : ℕ)
    → AreReady 0 files
    → length piece ≤ at - head
    → at ≤ length (flat files)
    → Written files at (drop (at - head) piece) (files, pos 0)
done-Written files piece head at r h room = record {
  code = refl;
  ready = r;
  holds = sym (
      ap (λ bs. overwrite at bs (flat files)) (drop-length (at - head) piece h)
      ∙ overwrite_nil at (flat files) room);
}

writes_flat :
    (files : List StorageFile) (at : ℕ) (f : StorageFile) (bs : List ℕ)
    → Found 0 at files f
    → at - f.offset + length bs ≤ f.size
    → flat (update_first (covers at) (write_at (at - f.offset) bs) files)
      ≡ overwrite at bs (flat files)
writes_flat files at f bs found h =
    found.writes bs h ∙ ap (λ n. overwrite n bs (flat files)) {x = at - 0} {y = at} (omega arith)

-- A write of the first bytes and then of the others.
step-Written :
    (files : List StorageFile) (rest : List ℕ) (at k : ℕ) (f : StorageFile) (later : List ℕ)
    (r : List StorageFile × ℤ)
    → Found 0 at files f
    → k ≤ length rest
    → at - f.offset + k ≤ f.size
    → at + length rest ≤ length (flat files)
    → later ≡ drop k rest
    → Written
        (update_first (covers at) (write_at (at - f.offset) (take k rest)) files)
        (at + k)
        later
        r
    → Written files at rest r
step-Written files rest at k f later r found short inside room e w = record {
  code = w.code;
  ready = w.ready;
  holds =
      w.holds
      ∙ ap₂ (overwrite (at + k)) e
          (writes_flat files at f (take k rest) found (omega (arith, length-take k rest, inside)))
      ∙ overwrite_twice at k rest (flat files) room short;
}

length-flat_write :
    (files : List StorageFile) (at : ℕ) (f : StorageFile) (bs : List ℕ)
    → Found 0 at files f
    → at - f.offset + length bs ≤ f.size
    → at + length bs ≤ length (flat files)
    → length (flat (update_first (covers at) (write_at (at - f.offset) bs) files))
      ≡ length (flat files)
length-flat_write files at f bs found h room =
    ap {A = List ℕ} length (writes_flat files at f bs found h)
    ∙ length-overwrite at bs (flat files) room

pub write_loop-Written :
    (fuel : ℕ) (io : ℕ → Io) (files : List StorageFile) (piece : List ℕ) (head at : ℕ)
    → ((n : ℕ) → io n ≡ works)
    → AreReady 0 files
    → head ≤ at
    → at ≤ length piece + head
    → length piece + head ≤ length (flat files)
    → length piece + head - at ≤ fuel
    → Written files at
        (drop (at - head) piece)
        (write_loop fuel io files piece head (length piece + head) at)
unfolding write_loop
write_loop-Written zero io files piece head at w r lo hi room enough =
    done-Written files piece head at r (omega arith) (omega arith)
write_loop-Written (suc fuel) io files piece head at w r lo hi room enough =
    let rear = length piece + head in
    elim (Bool-cases (leb rear at)) [
      | inl e ↦ rw e (done-Written files piece head at r (ground arith) (omega arith))
      | inr e ↦
          let below : at < rear = ground (arith, e) in
          let (f, found) = find_file 0 at files r (omega arith) (omega (arith, below, room)) in
          let (some_bytes, short, inside) = chunk_lem f at rear below found.after found.before in
          let k = chunk f at rear in
          let rest = drop (at - head) piece in
          let size : length rest ≡ rear - at =
            omega (arith, length_drop (at - head) piece, lo, hi) in
          let cut = length-take k rest in
          let fits : at - f.offset + length (take k rest) ≤ f.size = omega (arith, cut, inside) in
          subst (Written files at rest)
            (sym (write_round fuel io files piece head rear at f e (w at) found))
            (step-Written files rest at k f (drop (at + k - head) piece) _ found
              (omega (arith, size, short)) inside (omega (arith, size, room, below))
              (ap (λ n. drop n piece) (omega (arith, lo)) ∙ sym (drop-drop (at - head) k piece))
              (write_loop-Written fuel io _ piece head (at + k) w (found.stays (take k rest) fits)
                (omega (arith, lo)) (omega (arith, short, below))
                (omega (
                  arith,
                  room,
                  length-flat_write files at f (take k rest) found fits
                      (omega (arith, cut, size, short, room, below)),
                ))
                (omega (arith, enough, some_bytes, below))))
    ]
