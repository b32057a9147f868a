-- ===== src/SingleRequest/Alien.antt =====
-- Data in a request of SingleRequest.cpp that came for another one: `SetAlien`, `ClearAlien`,
-- `HaveAlien` and `GetOrphans`.
use benliud.Common.{ℕ, Bool, not, ◌&&◌, List, [], ◌∷◌, ◌++◌, map, Option, ◌==◌, if◌then◌else◌}
use benliud.Common.Search.{update_first, all}
use benliud.SingleRequest.{RequestBlock, SingleRequest, no_bytes, takes}

-- `SetAlien`: data that another peer's request left over.
unfoldable pub set_alien : SingleRequest → ℕ → ℕ → List ℕ → SingleRequest
set_alien r iip offset bytes = record r {
  blocks =
      update_first (takes offset bytes) (λ c. record c { bytes = bytes; source = iip }) r.blocks;
}

-- The body of the loop of `ClearAlien`: data that came from elsewhere is dropped.
unfoldable pub drop_alien : ℕ → RequestBlock → RequestBlock
drop_alien iip b =
    if not (b.source == iip) && not (no_bytes b) then record b { bytes = []; source = 0 } else b

-- `ClearAlien`
unfoldable pub clear_alien : SingleRequest → ℕ → SingleRequest
clear_alien r iip = record r { blocks = map (drop_alien iip) r.blocks }

-- `HaveAlien`
unfoldable pub have_alien : SingleRequest → ℕ → Bool
have_alien r iip = not (all (λ b. not (b.source == iip)) r.blocks)

-- `COrphan`
pub record Orphan : Type 0 where
  pub index : Option ℕ
  pub offset : ℕ
  pub source : ℕ
  pub bytes : List ℕ

-- `GetOrphans`: what it appends, for each block with data.
unfoldable pub orphans : Option ℕ → List RequestBlock → List Orphan
orphans index [] = []
orphans index (b ∷ bs) =
    if no_bytes b
    then orphans index bs
    else record { index = index; offset = b.offset; source = b.source; bytes = b.bytes }
      ∷ orphans index bs

unfoldable pub get_orphans : SingleRequest → List Orphan → List Orphan
get_orphans r orphan = orphan ++ orphans r.index r.blocks
