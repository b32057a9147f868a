-- ===== src/Storage/Files/Pieces.antt =====
-- Pieces on the disk, as `WritePieceToDisk` and `ReadDataFromDisk` of benliud_bt/src/BTStorage.cpp write
-- and read them.
use benliud.Common.{
  ℕ, ◌+◌, ◌-◌, ◌*◌, ◌≤◌, ◌≡◌, refl, ap, ◌∙◌, sym, subst, arith, List, some, length, take, drop,
  ==_iff,
}
use benliud.Storage.Files.{
  StorageFile, Io, works, overwrite, get_piece_length, write_loop, write_piece_to_disk,
  read_data_from_disk,
}
use benliud.Storage.Files.Bytes.{length-overwrite, take-drop-overwrite}
use benliud.Storage.Files.Flat.{AreReady, flat}
use benliud.Storage.Files.Refine.{Written, write_loop-Written}
use benliud.Storage.Files.Read.{read_loop_lem}

write_piece_of_length :
    (piece_length total count : ℕ) (io : ℕ → Io) (files : List StorageFile) (index : ℕ)
    (piece : List ℕ)
    → get_piece_length piece_length total count index ≡ length piece
    → write_piece_to_disk piece_length total count io files index piece
      ≡ write_loop
          (length piece)
          io
          files
          piece
          (index * piece_length)
          (length piece + index * piece_length)
          (index * piece_length)
unfolding write_piece_to_disk
write_piece_of_length piece_length total count io files index piece h =
    rw ((==_iff (get_piece_length piece_length total count index) (length piece)).1 h) refl

-- On files that are all wanted, open and of their full size, one behind the other from offset 0, and
-- when every transfer works, `WritePieceToDisk` of a piece of the right length that ends within the
-- files answers 0 and overwrites just the bytes of that piece in the run of all bytes, whatever files
-- it reaches over; the files keep their sizes.
pub write_piece_to_disk-Written :
    (piece_length total count : ℕ) (io : ℕ → Io) (files : List StorageFile) (index : ℕ)
    (piece : List ℕ)
    → ((n : ℕ) → io n ≡ works)
    → AreReady 0 files
    → get_piece_length piece_length total count index ≡ length piece
    → length piece + index * piece_length ≤ length (flat files)
    → Written files
        (index * piece_length)
        piece
        (write_piece_to_disk piece_length total count io files index piece)
write_piece_to_disk-Written piece_length total count io files index piece w r size room =
    let head = index * piece_length in
    subst (Written files head piece)
      (sym (write_piece_of_length piece_length total count io files index piece size))
      (subst
        (λ n.
          Written files head (drop n piece)
            (write_loop (length piece) io files piece head (length piece + head) head))
        {x = head - head} {y = 0} (omega arith)
        (write_loop-Written (length piece) io files piece head head w r (omega arith) (omega arith)
          room (omega arith)))

-- On such files `ReadDataFromDisk` gives just the bytes asked for of the run of all bytes, if they end
-- within the files.
pub read_data_from_disk_lem :
    (piece_length : ℕ) (io : ℕ → Io) (files : List StorageFile) (index offset len : ℕ)
    → ((n : ℕ) → io n ≡ works)
    → AreReady 0 files
    → len + (index * piece_length + offset) ≤ length (flat files)
    → read_data_from_disk piece_length io files index offset len
      ≡ some (take len (drop (index * piece_length + offset) (flat files)))
unfolding read_data_from_disk
read_data_from_disk_lem piece_length io files index offset len w r room =
    let at = index * piece_length + offset in
    read_loop_lem len io files (len + at) at w r (omega arith) room (omega arith)
    ∙ ap (λ n. some (take n (drop at (flat files)))) {x = len + at - at} {y = len} (omega arith)

-- A piece that was written to such files is read back as it was: the length is the piece's own, it
-- ends within the files, and every transfer works.
pub read_data-write_piece :
    (piece_length total count : ℕ) (io : ℕ → Io) (files : List StorageFile) (index : ℕ)
    (piece : List ℕ)
    → ((n : ℕ) → io n ≡ works)
    → AreReady 0 files
    → get_piece_length piece_length total count index ≡ length piece
    → length piece + index * piece_length ≤ length (flat files)
    → read_data_from_disk piece_length io
        (write_piece_to_disk piece_length total count io files index piece).0
        index
        0
        (length piece)
      ≡ some piece
read_data-write_piece piece_length total count io files index piece w r size room =
    let written =
      write_piece_to_disk-Written piece_length total count io files index piece w r size room in
    let files' = (write_piece_to_disk piece_length total count io files index piece).0 in
    let kept = length-overwrite (index * piece_length) piece (flat files) (omega (arith, room)) in
    read_data_from_disk_lem piece_length io files' index 0 (length piece) w written.ready
      (omega (arith, room, kept, ap {A = List ℕ} length written.holds))
    ∙ ap (λ xs. some (take (length piece) (drop (index * piece_length + 0) xs))) written.holds
    ∙ ap
        (λ n.
          some (take (length piece) (drop n (overwrite (index * piece_length) piece (flat files)))))
        {x = index * piece_length + 0} {y = index * piece_length} (omega arith)
    ∙ ap some (take-drop-overwrite (index * piece_length) piece (flat files) (omega (arith, room)))
