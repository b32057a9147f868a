-- ===== src/Storage/Cache/Tests.antt =====
-- Reads through the caches of BTStorage.cpp.
use benliud.Common.{
  ℕ, zero, suc, ◌+◌, ◌*◌, ◌<◌, ◌≡◌, ◌≤◌, refl, arith, true, false, List, [], ◌∷◌, none, some,
  length,
}
use benliud.Storage.Depot.{find_piece}
use benliud.Storage.Files.{works, get_piece_length, is_skipped}
use benliud.Storage.Files.Flat.{AreReady, flat}
use benliud.Storage.Cache.{BufferBlock, Disk, get_read_cache_size, read_data, read_all, throws}
use benliud.Storage.Cache.Slices.{slice}
use benliud.Storage.Cache.Served.{IsServed}
use benliud.Storage.Cache.Reads.{plain_reads, read_all-IsRead}
use benliud.Storage.Cache.Wrapping.{read_data-throws}

-- Three pieces of five bytes in one file; the first is at its edge, the last waits for the disk.
abbrev disk : Disk
disk = record {
  piece_length = 2;
  total = 5;
  count = 3;
  io = λ _. works;
  files =
      record {
        offset = 0;
        size = 5;
        vfile = false;
        priority = 1;
        is_open = true;
        content = 9 ∷ 8 ∷ 7 ∷ 6 ∷ 0 ∷ [];
      }
      ∷ [];
  edge_cache = (0, 9 ∷ 8 ∷ []) ∷ [];
  write_cache = (2, 5 ∷ []) ∷ [];
  cache_size = 131072;
}

abbrev content : ℕ → List ℕ
content zero = 9 ∷ 8 ∷ []
content (suc zero) = 7 ∷ 6 ∷ []
content (suc (suc zero)) = 5 ∷ []
content (suc (suc (suc i))) = []

disk_edges :
    (i : ℕ) (bytes : List ℕ) → find_piece i disk.edge_cache ≡ some bytes → bytes ≡ content i
unfolding find_piece
disk_edges zero bytes h = cc
disk_edges (suc i) bytes h = absurd (ground (arith, h))

disk_writes :
    (i : ℕ) (bytes : List ℕ) → find_piece i disk.write_cache ≡ some bytes → bytes ≡ content i
unfolding find_piece
disk_writes zero bytes h = absurd (ground (arith, h))
disk_writes (suc zero) bytes h = absurd (ground (arith, h))
disk_writes (suc (suc zero)) bytes h = cc
disk_writes (suc (suc (suc i))) bytes h = absurd (ground (arith, h))

disk_stored :
    (i : ℕ)
    → i < 3
    → find_piece i disk.write_cache ≡ none
    → (length (content i) + i * 2 ≤ length (flat disk.files))
      × (content i ≡ slice (i * 2) (length (content i)) (flat disk.files))
unfolding find_piece flat
disk_stored zero k h = (omega arith, refl)
disk_stored (suc zero) k h = (omega arith, refl)
disk_stored (suc (suc zero)) k h = absurd (ground (arith, h))
disk_stored (suc (suc (suc i))) k h = absurd (omega (arith, k))

disk_small : (i : ℕ) → length (content i) < 4294967296
disk_small zero = omega arith
disk_small (suc zero) = omega arith
disk_small (suc (suc zero)) = omega arith
disk_small (suc (suc (suc i))) = omega arith

disk_sized : (i : ℕ) → i < 3 → get_piece_length 2 5 3 i ≡ length (content i)
unfolding get_piece_length
disk_sized zero k = refl
disk_sized (suc zero) k = refl
disk_sized (suc (suc zero)) k = refl
disk_sized (suc (suc (suc i))) k = absurd (omega (arith, k))

disk-IsServed : IsServed disk content
unfolding AreReady is_skipped
disk-IsServed = record {
  working = λ _. refl;
  ready = (record { placed = refl; whole = refl; opened = refl; used = refl }, tt);
  small = disk_small;
  sized = disk_sized;
  edges = disk_edges;
  writes = disk_writes;
  stored = disk_stored;
}

-- The second read finds the block of the first.
abbrev reads : List (ℕ × ℕ × ℕ)
reads = (1, 0, 2) ∷ (1, 1, 1) ∷ (0, 1, 1) ∷ (2, 0, 1) ∷ []

read_all-IsRead_example :
    ((read_all disk [] reads).1 ≡ plain_reads content reads)
    × (length (read_all disk [] reads).0 ≤ get_read_cache_size disk)
read_all-IsRead_example = read_all-IsRead disk content [] reads disk-IsServed tt (omega arith) (
  record { known = omega arith; inside = omega arith; short = omega arith },
  (
    record { known = omega arith; inside = omega arith; short = omega arith },
    (
      record { known = omega arith; inside = omega arith; short = omega arith },
      (record { known = omega arith; inside = omega arith; short = omega arith }, tt),
    ),
  ),
)

-- The block of the second piece.
abbrev block : BufferBlock
block = record { p_index = 1; offset = 0; bytes = 7 ∷ 6 ∷ [] }

read_data-throws_example : (read_data disk (block ∷ []) 1 4294967295 1).1 ≡ throws
read_data-throws_example = read_data-throws disk block [] 4294967295 1 (omega arith) (omega arith)
