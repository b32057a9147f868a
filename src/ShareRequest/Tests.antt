-- ===== src/ShareRequest/Tests.antt =====
-- ShareRequest.cpp at concrete inputs, and its theorems where their hypotheses hold.
use benliud.Common.{◌≡◌, refl, true, false, [], ◌∷◌, none, some}
use benliud.Common.Int.{pos}
use benliud.Common.Search.{find_first, update_first, all}
use benliud.ShareRequest.{
  ShareBlock, ShareRequest, init, decompose, block_at, no_bytes, drop_bytes, clear_data, differs,
  equal, starts_at, receive, set_data, is_finish, all_data, get_piece_data, check_hash, wants, ask,
  take_task, get_task, get_overlap_task, set_priority, forget, give_up, zero_inside,
  set_virtual_data, data_from_same_source, drop_unconfirmed, clear_comfirm_data,
}
use benliud.ShareRequest.Tasks.{get_tasks, set_data-unasked}

abbrev fresh : ShareRequest
fresh = init (pos 5) 3 (pos 6)

abbrev asked : ShareRequest
asked = (get_task fresh).0

-- Peers 1 and 2 agree, peer 3 does not.
abbrev told : ShareRequest
told = (set_data (set_data asked 1 0 (7 ∷ 8 ∷ 9 ∷ [])).0 2 0 (7 ∷ 8 ∷ 9 ∷ [])).0

runs :
    ((get_task fresh).1 ≡ some (0, 3))
    × ((get_overlap_task asked).1 ≡ some (0, 3))
    × ((get_overlap_task (set_priority asked (pos 5))).1 ≡ none)
    × ((set_data told 3 0 (0 ∷ [])).1 ≡ differs)
    × (get_piece_data (set_data told 3 0 (0 ∷ [])).0 ≡ 7 ∷ 8 ∷ 9 ∷ [])
    × (is_finish told ≡ true)
    × (data_from_same_source told ≡ some true)
    × (check_hash (λ x. x) told (7 ∷ []) ≡ (record told { fail_times = 1 }, false))
unfolding get_task take_task wants ask init decompose block_at no_bytes find_first update_first
    get_overlap_task set_priority set_data receive starts_at equal get_piece_data all_data is_finish
    all data_from_same_source check_hash
runs = (refl, refl, refl, refl, refl, refl, refl, refl)

more_runs :
    ((give_up asked 0).blocks ≡ fresh.blocks)
    × ((clear_data (set_virtual_data fresh 0 3)).blocks ≡ fresh.blocks)
    × ((clear_comfirm_data (record told { fail_times = 2 })).blocks ≡ (clear_data told).blocks)
unfolding give_up forget set_virtual_data zero_inside clear_data drop_bytes clear_comfirm_data
    drop_unconfirmed get_task take_task wants ask init decompose block_at no_bytes find_first
    update_first set_data receive starts_at equal
more_runs = (refl, refl, refl)

abbrev block : ShareBlock
block = block_at 3 0

fresh-block : find_first (starts_at 0) fresh.blocks ≡ some block
unfolding init decompose block_at find_first starts_at
fresh-block = refl

block-pending : block.pending ≡ 0
unfolding block_at
block-pending = refl

set_data-unasked_example :
    (c : ShareBlock) × (find_first
        (starts_at 0)
        (get_tasks 3 (clear_data (set_data fresh 1 0 (7 ∷ 8 ∷ 9 ∷ [])).0)).blocks
      ≡ some c)
    × (c.bytes ≡ [])
    × (c.pending ≡ 65535)
set_data-unasked_example =
    set_data-unasked fresh 1 0 (7 ∷ 8 ∷ 9 ∷ []) block 3 fresh-block block-pending

asked-overlap : (get_overlap_task asked).1 ≡ some (0, 3)
unfolding get_task take_task wants ask init decompose block_at no_bytes find_first update_first
    get_overlap_task
asked-overlap = refl
