-- ===== src/Storage/Tests.antt =====
-- BTStorage.cpp at concrete inputs, and its theorems where their hypotheses hold.
use benliud.Common.{
  ℕ, ◌+◌, ◌*◌, ◌≤◌, ◌<◌, ◌≡◌, ◌⊎◌, refl, Bool, true, false, arith, List, [], ◌∷◌, none, some,
  length, zero, suc,
}
use benliud.Common.Int.{pos, negsuc, lt_int, above}
use benliud.Common.Search.{find_first, update_first}
use benliud.Piece.{BtPiece}
use benliud.PieceSum.{get_value}
use benliud.Storage.{Storage, Chance, task, take_task, open_value, get_piece_task}
use benliud.Storage.Choice.{Small}
use benliud.Storage.Choose.{IsWanted, get_piece_task_lem}
use benliud.Storage.Files.{
  StorageFile, Io, works, overwrite, is_skipped, get_piece_length, write_piece_to_disk,
  read_data_from_disk, write_loop, read_loop, read_chunk, chunk, covers, get_file_info_by_offset,
  write_at,
}
use benliud.Storage.Files.Flat.{Ready, AreReady, flat}
use benliud.Storage.Files.Refine.{Written}
use benliud.Storage.Files.Pieces.{write_piece_to_disk-Written, read_data-write_piece}

-- Four pieces, the first of which is there; the third is not wanted, the fourth is asked of one peer.
abbrev store : Storage
store = record {
  finished = record { size = 4; bytes = 128 ∷ [] };
  priority = record { size = 4; values = pos 1 ∷ pos 1 ∷ pos 0 ∷ pos 6 ∷ [] };
  piece_sum = record { size = 4; values = pos 3 ∷ pos 2 ∷ pos 2 ∷ pos 1 ∷ [] };
  downloading = (3, 1) ∷ [];
  orphans = [];
}

abbrev peer : BtPiece
peer = record { size = 4; bytes = 240 ∷ [] }

abbrev chance : Chance
chance = record { first = 17; second = 5; pickleast = 80 }

store-Small : Small store.piece_sum
unfolding Small get_value lt_int
store-Small zero = refl
store-Small (suc zero) = refl
store-Small (suc (suc zero)) = refl
store-Small (suc (suc (suc zero))) = refl
store-Small (suc (suc (suc (suc p)))) = ground arith

get_piece_task_lem_example :
    ((get_piece_task store peer chance ≡ (store, none))
      × ((i : ℕ) → i < 4 → above (open_value store peer i) 0 ≡ false))
    ⊎ ((p : ℕ) × (c : Bool) × (get_piece_task store peer chance
          ≡ (take_task store p, some (task p c)))
        × IsWanted store peer p)
get_piece_task_lem_example = get_piece_task_lem store peer chance store-Small

abbrev file : ℕ → ℕ → List ℕ → StorageFile
file offset size content = record {
  offset = offset;
  size = size;
  vfile = false;
  priority = 1;
  is_open = true;
  content = content;
}

-- Five bytes in three files, two bytes in a piece.
abbrev files : List StorageFile
files = file 0 1 (9 ∷ []) ∷ file 1 1 (8 ∷ []) ∷ file 2 3 (7 ∷ 6 ∷ 5 ∷ []) ∷ []

abbrev all_work : ℕ → Io
all_work n = works

file-Ready :
    (offset size : ℕ) (content : List ℕ)
    → length content ≡ size
    → Ready offset (file offset size content)
unfolding is_skipped
file-Ready offset size content h = record { placed = refl; whole = h; opened = refl; used = refl }

files-AreReady : AreReady 0 files
unfolding AreReady
files-AreReady = (
  file-Ready 0 1 (9 ∷ []) refl,
  (file-Ready 1 1 (8 ∷ []) refl, (file-Ready 2 3 (7 ∷ 6 ∷ 5 ∷ []) refl, tt)),
)

second_length : get_piece_length 2 5 3 0 ≡ 2
unfolding get_piece_length
second_length = refl

room : 2 + 0 * 2 ≤ length (flat files)
unfolding flat
room = omega arith

write_piece_to_disk-Written_example :
    Written files (0 * 2) (1 ∷ 2 ∷ []) (write_piece_to_disk 2 5 3 all_work files 0 (1 ∷ 2 ∷ []))
write_piece_to_disk-Written_example =
    write_piece_to_disk-Written 2 5 3 all_work files 0 (1 ∷ 2 ∷ []) (λ n. refl) files-AreReady
      second_length room

read_data-write_piece_example :
    read_data_from_disk 2 all_work (write_piece_to_disk 2 5 3 all_work files 0 (1 ∷ 2 ∷ [])).0 0 0 2
    ≡ some (1 ∷ 2 ∷ [])
read_data-write_piece_example =
    read_data-write_piece 2 5 3 all_work files 0 (1 ∷ 2 ∷ []) (λ n. refl) files-AreReady
      second_length room

-- The second file is not wanted: it is passed by, and not read back.
abbrev gap : List StorageFile
gap =
    file 0 1 (9 ∷ [])
    ∷ record {
      offset = 1;
      size = 1;
      vfile = false;
      priority = 0;
      is_open = false;
      content = 8 ∷ [];
    }
    ∷ file 2 3 (7 ∷ 6 ∷ 5 ∷ [])
    ∷ []

gap_run :
    ((write_piece_to_disk 2 5 3 all_work gap 0 (1 ∷ 2 ∷ [])).1 ≡ pos 0)
    × (flat (write_piece_to_disk 2 5 3 all_work gap 0 (1 ∷ 2 ∷ [])).0 ≡ 1 ∷ 8 ∷ 7 ∷ 6 ∷ 5 ∷ [])
    × (read_data_from_disk 2 all_work gap 0 0 2 ≡ none)
    × ((write_piece_to_disk 2 5 3 all_work gap 0 (1 ∷ [])).1 ≡ negsuc 0)
unfolding write_piece_to_disk read_data_from_disk write_loop read_loop read_chunk chunk covers
    get_file_info_by_offset get_piece_length write_at overwrite is_skipped flat find_first
    update_first
gap_run = (refl, refl, refl, refl)
