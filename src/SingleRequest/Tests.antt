-- ===== src/SingleRequest/Tests.antt =====
-- SingleRequest.cpp at concrete inputs, and its theorems where their hypotheses hold.
use benliud.Common.{ℕ, ◌≤◌, ◌≡◌, refl, true, false, arith, List, [], ◌∷◌, some, length, ◌==◌}
use benliud.Common.Search.{find_first, update_first, all}
use benliud.SingleRequest.{
  SingleRequest, new, init, reset, decompose, block_at, set_data, no_bytes, takes, is_finish,
  all_data, get_piece_data, check_hash, is_free, get_task, not_pending, reset_pending_request,
  starts_at, reset_pending_request_at, is_pending_request, mark_pending_request, zero_inside,
  set_virtual_data, pending_requests, get_pending_request, empty,
}
use benliud.SingleRequest.Alien.{
  set_alien, drop_alien, clear_alien, have_alien, orphans, get_orphans,
}
use benliud.SingleRequest.Clock.{choked_too_often, no_answer, stalled, time_out_check, choke_notice}
use benliud.SingleRequest.Tiles.{Tiled, decompose-Tiled}
use benliud.SingleRequest.Data.{IsFaithful, init-IsFaithful}
use benliud.SingleRequest.Timing.{time_out_check-next_task}
use benliud.SingleRequest.Session.{get_piece_data-run}
use benliud.SingleRequest.Calls.{
  Call, inits, gets_task, marks_pending, sets_data, resets_pending_at, resets, sets_alien,
  clears_alien, sets_virtual, chokes, resets_pending, run, step, AreAllowed, Inv, new-Inv, run-Inv,
}

-- A request for a piece of three bytes, which come as they are asked for.
abbrev piece : List ℕ
piece = 7 ∷ 8 ∷ 9 ∷ []

abbrev fresh : SingleRequest
fresh = init (reset (new 100 0 false)) (some 5) 3

abbrev asked : SingleRequest
asked = (get_task fresh 200).0

abbrev done : SingleRequest
done = (set_data fresh 0 piece 300).0

runs :
    ((get_task fresh 200).1 ≡ some (0, 3))
    × (asked.pending_count ≡ 1)
    × (get_pending_request asked 0 ≡ (0, 3) ∷ [])
    × (is_pending_request asked 0 ≡ true)
    × ((set_data asked 0 piece 300).1 ≡ true)
    × ((set_data asked 1 piece 300).1 ≡ false)
    × (check_hash (λ x. x) (λ x y. length x == length y) done piece ≡ true)
unfolding get_task init reset new decompose block_at is_free no_bytes find_first update_first
    set_data takes get_pending_request pending_requests is_pending_request starts_at check_hash
    all_data
runs = (refl, refl, refl, refl, refl, refl, refl)

orphans_of_done :
    get_orphans (set_alien fresh 4 0 piece) []
    ≡ record { index = some 5; offset = 0; source = 4; bytes = piece } ∷ []
unfolding get_orphans orphans set_alien init reset new decompose block_at no_bytes update_first
    takes
orphans_of_done = refl

aliens :
    (have_alien (set_alien fresh 4 0 piece) 4 ≡ true)
    × (have_alien (clear_alien (set_alien fresh 4 0 piece) 9) 4 ≡ false)
unfolding have_alien all clear_alien drop_alien set_alien init reset new decompose block_at no_bytes
    update_first takes
aliens = (refl, refl)

-- The other calls, and the clock: nothing for 1000 ticks after the request, nothing after data.
more_runs :
    ((set_virtual_data fresh 0 3).blocks ≡ (set_alien fresh 0 0 (0 ∷ 0 ∷ 0 ∷ [])).blocks)
    × ((reset_pending_request asked).blocks ≡ fresh.blocks)
    × ((reset_pending_request_at asked 0).blocks ≡ fresh.blocks)
    × ((mark_pending_request fresh 0 9).1 ≡ true)
    × (time_out_check (choke_notice asked false 200) 1000 1300 ≡ no_answer)
    × (time_out_check (choke_notice done false 200) 1000 1400 ≡ stalled)
    × (empty fresh ≡ false)
unfolding set_virtual_data zero_inside set_alien reset_pending_request not_pending
    reset_pending_request_at mark_pending_request init reset new decompose block_at no_bytes is_free
    find_first update_first takes starts_at get_task time_out_check choke_notice set_data empty
more_runs = (refl, refl, refl, refl, refl, refl, refl)

fresh-IsFaithful : IsFaithful piece fresh
fresh-IsFaithful = init-IsFaithful (new 100 0 false) 5 piece

-- A piece longer than one block.
decompose-Tiled_example :
    Tiled 0 40000 (decompose 40000 40000 0) × (length (decompose 40000 40000 0) ≤ 40000)
decompose-Tiled_example = decompose-Tiled 40000 40000 0 (omega arith) (omega arith)

-- A task asked for, answered and dropped, with every other call on the way.
abbrev calls : List Call
calls =
    inits 5 3
    ∷ gets_task 200
    ∷ marks_pending 0 210
    ∷ chokes true 220
    ∷ chokes false 230
    ∷ resets_pending
    ∷ resets_pending_at 0
    ∷ sets_data 0 piece 300
    ∷ sets_alien 4 0 piece
    ∷ clears_alien 9
    ∷ sets_virtual 0 3
    ∷ resets
    ∷ []

run-Inv_example : Inv (run (new 100 0 false) calls)
unfolding AreAllowed empty new
run-Inv_example =
    run-Inv (new 100 0 false) calls
      ((omega arith, refl), (tt, (tt, (tt, (tt, (tt, (tt, (tt, (tt, (tt, (tt, (tt, tt))))))))))))
      (new-Inv 100 0 false)

-- A peer that has choked and unchoked six times.
abbrev choked : SingleRequest
choked = record (new 100 0 false) { choke = 12 }

time_out_check-next_task_example :
    time_out_check (init (reset choked) (some 6) 3) 1000 100 ≡ choked_too_often
time_out_check-next_task_example = time_out_check-next_task choked 6 3 1000 100 refl (omega arith)

-- Asked for, choked, dropped, asked for again and answered twice, the second time by another peer.
abbrev task_calls : List Call
task_calls =
    gets_task 200
    ∷ chokes true 220
    ∷ resets_pending
    ∷ chokes false 230
    ∷ marks_pending 0 240
    ∷ resets_pending_at 0
    ∷ sets_alien 4 0 piece
    ∷ clears_alien 4
    ∷ sets_data 0 piece 300
    ∷ []

task-is_finish : is_finish (run fresh task_calls) ≡ true
unfolding is_finish init reset new decompose block_at set_data find_first update_first takes all
    no_bytes run step get_task is_free reset_pending_request not_pending mark_pending_request
    starts_at reset_pending_request_at set_alien clear_alien drop_alien choke_notice
task-is_finish = refl

get_piece_data-run_example : get_piece_data (run fresh task_calls) ≡ piece
get_piece_data-run_example =
    get_piece_data-run piece (new 100 0 false) 5 task_calls
      (tt, (tt, (tt, (tt, (tt, (tt, (refl, (tt, (refl, tt))))))))) task-is_finish
