-- ===== src/Storage/Depot/Downloading.antt =====
-- The calls of benliud_bt/src/BTStorage.cpp on orphans, shared requests and pieces that leave the map of
-- the tasks alone.
use benliud.Common.{ℕ, ◌≡◌, refl, ◌∙◌, Bool, not, List, Option, if_cases, some_cases}
use benliud.Piece.{is_set}
use benliud.PieceSum.{get_value, nonzero}
use benliud.SingleRequest.Alien.{Orphan}
use benliud.ShareRequest.{check_hash, is_finish, get_piece_data, set_data}
use benliud.Storage.Depot.{
  Torrent, Depot, find_piece, with_orphans, clean_orphan, check_out_orphan_data,
  check_in_orphan_data, cache_piece, waste, write_piece, new_share, adopt, ask_share, open_share,
  get_share_task, settle_share, submit_share_data, hash_ok,
}

-- Calls of the storage that leave the tasks alone.
pub write_piece_tasks :
    (d : Depot) (index : ℕ) (bytes : List ℕ)
    → (write_piece d index bytes).storage.downloading ≡ d.storage.downloading
unfolding write_piece clean_orphan with_orphans waste cache_piece
write_piece_tasks d index bytes =
    let P = λ (e : Depot). e.storage.downloading ≡ d.storage.downloading in
    if_cases P (is_set d.storage.finished index) _ _ (λ _. refl)
      (λ _.
        if_cases P (not (nonzero (get_value d.storage.priority index))) _ _ (λ _. refl) (λ _. refl))

pub check_out_tasks :
    (d : Depot) (index : ℕ)
    → (check_out_orphan_data d index).0.storage.downloading ≡ d.storage.downloading
unfolding check_out_orphan_data with_orphans
check_out_tasks d index =
    some_cases (λ (x : Depot × List Orphan). x.0.storage.downloading ≡ d.storage.downloading)
      (find_piece index d.orphan_map) _ _ (λ _. refl) (λ os _. refl)

pub check_in_tasks :
    (d : Depot) (index : ℕ) (os : List Orphan)
    → (check_in_orphan_data d index os).storage.downloading ≡ d.storage.downloading
unfolding check_in_orphan_data with_orphans
check_in_tasks d index os =
    some_cases (λ (e : Depot). e.storage.downloading ≡ d.storage.downloading)
      (find_piece index d.orphan_map) _ _ (λ _. refl) (λ old _. refl)

open_share_tasks :
    (t : Torrent) (d : Depot) (index : ℕ)
    → (open_share t d index).0.storage.downloading ≡ d.storage.downloading
unfolding open_share ask_share
open_share_tasks t d index =
    let P = λ (x : Depot × Option (ℕ × ℕ)). x.0.storage.downloading ≡ d.storage.downloading in
    let out = check_out_orphan_data d index in
    let same = check_out_tasks d index in
    let r = adopt (new_share t d index) out.1 in
    if_cases P (not (is_finish r)) _ _ (λ _. same)
      (λ _.
        if_cases P (hash_ok t index (get_piece_data r)) _ _
          (λ _. write_piece_tasks out.0 index (get_piece_data r) ∙ same) (λ _. same))

pub get_share_task_tasks :
    (t : Torrent) (d : Depot) (index : ℕ)
    → (get_share_task t d index).0.storage.downloading ≡ d.storage.downloading
unfolding get_share_task ask_share
get_share_task_tasks t d index =
    let P = λ (x : Depot × Option (ℕ × ℕ)). x.0.storage.downloading ≡ d.storage.downloading in
    if_cases P (is_set d.storage.finished index) _ _ (λ _. refl)
      (λ _.
        some_cases P (find_piece index d.shares) _ _ (λ _. open_share_tasks t d index)
          (λ r _. refl))

pub submit_share_data_tasks :
    (t : Torrent) (d : Depot) (source index offset : ℕ) (bytes : List ℕ)
    → (submit_share_data t d source index offset bytes).0.storage.downloading
      ≡ d.storage.downloading
unfolding submit_share_data settle_share
submit_share_data_tasks t d source index offset bytes =
    let P = λ (x : Depot × Bool). x.0.storage.downloading ≡ d.storage.downloading in
    if_cases P (is_set d.storage.finished index) _ _ (λ _. refl)
      (λ _.
        some_cases P (find_piece index d.shares) _ _ (λ _. refl)
          (λ r _.
            let r' = (set_data r source offset bytes).0 in
            let checked = check_hash t.sha1_string r' (t.piece_hash index) in
            if_cases P (not (is_finish r')) _ _ (λ _. refl)
              (λ _.
                if_cases P checked.1 _ _ (λ _. write_piece_tasks d index (get_piece_data checked.0))
                  (λ _. refl))))
