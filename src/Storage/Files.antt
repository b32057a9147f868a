-- ===== src/Storage/Files.antt =====
-- The files of a torrent on the disk, in benliud_bt/src/BTStorage.cpp: one file after the other makes
-- the bytes of the torrent, and a piece may reach over several files. Offsets are not negative.
pub mod Bytes
pub mod Flat
pub mod Refine
pub mod Read
pub mod Pieces
use benliud.Common.{
  ℕ, zero, suc, ◌+◌, ◌-◌, ◌*◌, ◌/◌, ◌%◌, Bool, true, false, not, ◌&&◌, ◌||◌, List, [], ◌∷◌, ◌++◌,
  Option, none, some, length, take, drop, replicate, ltb, leb, ◌==◌, if◌then◌else◌,
}
use benliud.Common.Int.{ℤ, pos, negsuc}
use benliud.Common.Search.{find_first, update_first}

-- `TStorageFileInfo`, with what the open file holds.
pub record StorageFile : Type 0 where
  pub offset : ℕ
  pub size : ℕ
  pub vfile : Bool
  pub priority : ℕ
  pub is_open : Bool
  pub content : List ℕ

-- How a seek and a read or a write end.
pub data Io : Type 0 where
  works seek_fails transfer_fails : Io

-- `GetPieceLength`, for a torrent of `total` bytes, and an index in range.
unfoldable pub get_piece_length : ℕ → ℕ → ℕ → ℕ → ℕ
get_piece_length piece_length total count index =
    if not (index == count - 1)
    then piece_length
    else if total % piece_length == 0
    then piece_length
    else total % piece_length

-- `GetPieceIndexByOffset`
unfoldable pub get_piece_index_by_offset : ℕ → ℕ → ℕ
get_piece_index_by_offset piece_length offset = offset / piece_length

-- `headindex` and `tailindex` of a file: its first piece, and the one behind its last.
unfoldable pub head_index : ℕ → StorageFile → ℕ
head_index piece_length f = get_piece_index_by_offset piece_length f.offset

unfoldable pub tail_index : ℕ → StorageFile → ℕ
tail_index piece_length f =
    if (f.offset + f.size) % piece_length == 0
    then get_piece_index_by_offset piece_length (f.offset + f.size)
    else get_piece_index_by_offset piece_length (f.offset + f.size) + 1

-- `it->fileInfo.offset <= offset && it->fileInfo.offset + it->fileInfo.size > offset`
unfoldable pub covers : ℕ → StorageFile → Bool
covers offset f = leb f.offset offset && ltb offset (f.offset + f.size)

-- `GetFileInfoByOffset`
unfoldable pub get_file_info_by_offset : List StorageFile → ℕ → Option StorageFile
get_file_info_by_offset files offset = find_first (covers offset) files

-- What a write at an offset leaves of the bytes of a file.
unfoldable pub overwrite : ℕ → List ℕ → List ℕ → List ℕ
overwrite zero [] content = content
overwrite zero (b ∷ bs) [] = b ∷ bs
overwrite zero (b ∷ bs) (c ∷ cs) = b ∷ overwrite zero bs cs
overwrite (suc n) bs [] = 0 ∷ overwrite n bs []
overwrite (suc n) bs (c ∷ cs) = c ∷ overwrite n bs cs

unfoldable pub write_at : ℕ → List ℕ → StorageFile → StorageFile
write_at offset bytes f = record f { content = overwrite offset bytes f.content }

-- The number of bytes from `at` that lie in the file and before `rear`.
unfoldable pub chunk : StorageFile → ℕ → ℕ → ℕ
chunk f at rear =
    if ltb (rear - at) (f.size - (at - f.offset)) then rear - at else f.size - (at - f.offset)

unfoldable pub is_skipped : StorageFile → Bool
is_skipped f = f.priority == 0 || (not f.is_open || f.vfile)

-- The loop of `WritePieceToDisk` from `at` on, and its result; `io` is how the transfer at a position
-- ends. `piece` starts at `head`. A round moves on by a byte at least.
unfoldable pub write_loop :
    (fuel : ℕ) (io : ℕ → Io) (files : List StorageFile) (piece : List ℕ) (head rear at : ℕ)
    → List StorageFile × ℤ
write_loop zero io files piece head rear at = (files, pos 0)
write_loop (suc fuel) io files piece head rear at =
    if leb rear at then (files, pos 0) else elim (get_file_info_by_offset files at) [
      | none ↦ (files, negsuc 1)
      | some f ↦
          if is_skipped f
          then write_loop fuel io files piece head rear (f.offset + f.size)
          else elim (io at) [
            | works ↦
                write_loop fuel io
                  (update_first (covers at)
                    (write_at (at - f.offset) (take (chunk f at rear) (drop (at - head) piece)))
                    files)
                  piece head rear (at + chunk f at rear)
            | seek_fails ↦ (files, negsuc 3)
            | transfer_fails ↦ (files, negsuc 4)
          ]
    ]

-- `WritePieceToDisk`
unfoldable pub write_piece_to_disk :
    (piece_length total count : ℕ) (io : ℕ → Io)
    → List StorageFile
    → ℕ
    → List ℕ
    → List StorageFile × ℤ
write_piece_to_disk piece_length total count io files index piece =
    if not (get_piece_length piece_length total count index == length piece)
    then (files, negsuc 0)
    else write_loop (length piece) io files piece (index * piece_length)
        (length piece + index * piece_length) (index * piece_length)

-- The bytes of one round of `ReadDataFromDisk`; a file that is not open is read as zeros if it is a
-- virtual one. A file that is shorter than its size is not read.
unfoldable pub read_chunk : Io → StorageFile → ℕ → ℕ → Option (List ℕ)
read_chunk io f at rear =
    if not f.is_open
    then (if f.vfile then some (replicate (chunk f at rear) 0) else none)
    else elim io [
      | works ↦
          let found = take (chunk f at rear) (drop (at - f.offset) f.content) in
          if length found == chunk f at rear then some found else none
      | seek_fails ↦ none
      | transfer_fails ↦ none
    ]

-- Its loop from `at` on, with what it puts into the buffer.
unfoldable pub read_loop :
    (fuel : ℕ) (io : ℕ → Io) (files : List StorageFile) (rear at : ℕ) → Option (List ℕ)
read_loop zero io files rear at = some []
read_loop (suc fuel) io files rear at =
    if leb rear at then some [] else elim (get_file_info_by_offset files at) [
      | none ↦ none
      | some f ↦ elim (read_chunk (io at) f at rear) [
        | none ↦ none
        | some bytes ↦ elim (read_loop fuel io files rear (at + chunk f at rear)) [
          | none ↦ none
          | some later ↦ some (bytes ++ later)
        ]
      ]
    ]

-- `ReadDataFromDisk`
unfoldable pub read_data_from_disk :
    (piece_length : ℕ) (io : ℕ → Io) → List StorageFile → ℕ → ℕ → ℕ → Option (List ℕ)
read_data_from_disk piece_length io files index offset len =
    read_loop len io files (len + (index * piece_length + offset)) (index * piece_length + offset)
