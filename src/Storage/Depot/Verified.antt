-- ===== src/Storage/Depot/Verified.antt =====
-- Which pieces become finished while benliud_bt/src/BTStorage.cpp collects data.
use benliud.Common.{
  ℕ, ◌<◌, ◌≡◌, ◌≢◌, ◌⊎◌, refl, sym, ap, ◌∙◌, arith, Bool, true, false, not, List, [], ◌∷◌, Option,
  some, ltb, ◌==◌, if◌then◌else◌, Bool-cases, inl, inr, ==_iff, if_cases, some_cases, if_true,
  if_false,
}
use benliud.Piece.{BtPiece, is_set}
use benliud.Piece
use benliud.Piece.Laws.{set-IsValid, size-set, is_set-set}
use benliud.Piece.Laws
use benliud.PieceSum.{get_value, nonzero}
use benliud.SingleRequest.Alien.{Orphan}
use benliud.ShareRequest.{ShareRequest, equal, check_hash, get_piece_data, is_finish, set_data}
use benliud.Storage.Depot.{
  Torrent, PieceMap, find_piece, put_piece, Depot, with_orphans, clean_orphan,
  check_out_orphan_data, check_in_orphan_data, abandon_task, cache_piece, waste, write_piece,
  new_share, adopt, ask_share, hash_ok, open_share, get_share_task, settle_share, submit_share_data,
}

pub find_piece-put_piece {ℓ} :
    {A : Type ℓ} (p q : ℕ) (a : A) (m : PieceMap A)
    → find_piece q (put_piece p a m) ≡ (if q == p then some a else find_piece q m)
unfolding find_piece put_piece
find_piece-put_piece p q a [] = refl
find_piece-put_piece p q a ((k, b) ∷ m) = ground (arith, find_piece-put_piece p q a m)

pub equal_sound : (xs ys : List ℕ) → equal xs ys ≡ true → xs ≡ ys
unfolding equal
equal_sound [] [] h = refl
equal_sound [] (y ∷ ys) h = cc
equal_sound (x ∷ xs) [] h = cc
equal_sound (x ∷ xs) (y ∷ ys) h = ground (arith, equal_sound xs ys)

unset_below : (p : BtPiece) (i : ℕ) → is_set p i ≡ false → i < p.size
unfolding is_set
unset_below p i h = ground arith

is_set_ne :
    (p : BtPiece) (i j : ℕ)
    → Piece.Laws.IsValid p
    → i < p.size
    → i ≢ j
    → is_set (Piece.set p i true) j ≡ is_set p j
is_set_ne p i j v h ne = is_set-set p i j true v h ∙ if_false (i == j) _ _ (ground arith)

-- A piece that is finished was so at the start, or its bytes are in the write cache and have the
-- hash that the torrent says.
abbrev pub IsKept : Torrent → BtPiece → PieceMap (List ℕ) → ℕ → Type 0
IsKept t start cache i =
    (is_set start i ≡ true)
    ⊎ ((bytes : List ℕ) × (find_piece i cache ≡ some bytes)
        × (t.sha1_string bytes ≡ t.piece_hash i))

pub record AllKept (t : Torrent) (start finished : BtPiece) (cache : PieceMap (List ℕ))
    : Type 0 where
  pub valid : Piece.Laws.IsValid finished
  pub kept : (i : ℕ) → i < finished.size → is_set finished i ≡ true → IsKept t start cache i

abbrev pub IsVerified : Torrent → BtPiece → Depot → Type 0
IsVerified t start d = AllKept t start d.storage.finished d.write_cache

module _ (t : Torrent) (start : BtPiece) where
  IsKept-further :
      (cache : PieceMap (List ℕ)) (index i : ℕ) (bytes : List ℕ)
      → t.sha1_string bytes ≡ t.piece_hash index
      → (index ≢ i → IsKept t start cache i)
      → IsKept t start (put_piece index bytes cache) i
  IsKept-further cache index i bytes g k = elim (Bool-cases (i == index)) [
    | inl e ↦
        let same : i ≡ index = (==_iff i index).0 e in
        inr (
          bytes,
          find_piece-put_piece index i bytes cache ∙ if_true (i == index) _ _ e,
          g ∙ ap t.piece_hash (sym same),
        )
    | inr e ↦ elim (k (λ q. ground (arith, e))) [
      | inl a ↦ inl a
      | inr (b, f, h) ↦
          inr (b, (find_piece-put_piece index i bytes cache ∙ if_false (i == index) _ _ e) ∙ f, h)
    ]
  ]

  cache_piece-IsVerified :
      (d : Depot) (index : ℕ) (bytes : List ℕ)
      → is_set d.storage.finished index ≡ false
      → t.sha1_string bytes ≡ t.piece_hash index
      → IsVerified t start d
      → IsVerified t start (cache_piece d index bytes)
  unfolding cache_piece
  cache_piece-IsVerified d index bytes n g v = record {
    valid = set-IsValid d.storage.finished index true v.valid;
    kept = λ i h s. IsKept-further d.write_cache index i bytes g (λ ne.
        v.kept i (omega (arith, h, size-set d.storage.finished index true)) (
          sym (
            is_set_ne d.storage.finished index i v.valid (unset_below d.storage.finished index n)
              ne)
          ∙ s));
  }

  pub write_piece-IsVerified :
      (d : Depot) (index : ℕ) (bytes : List ℕ)
      → t.sha1_string bytes ≡ t.piece_hash index
      → IsVerified t start d
      → IsVerified t start (write_piece d index bytes)
  unfolding write_piece clean_orphan with_orphans waste
  write_piece-IsVerified d index bytes g v =
      if_cases (IsVerified t start) (is_set d.storage.finished index) _ _ (λ _. v)
        (λ n.
          if_cases (IsVerified t start) (not (nonzero (get_value d.storage.priority index))) _ _
            (λ _. v) (λ _. cache_piece-IsVerified (clean_orphan d index) index bytes n g v))

  pub check_out-IsVerified :
      (d : Depot) (index : ℕ)
      → IsVerified t start d
      → IsVerified t start (check_out_orphan_data d index).0
  unfolding check_out_orphan_data with_orphans
  check_out-IsVerified d index v =
      some_cases (λ (x : Depot × List Orphan). IsVerified t start x.0)
        (find_piece index d.orphan_map) _ _ (λ _. v) (λ os _. v)

  pub check_in-IsVerified :
      (d : Depot) (index : ℕ) (os : List Orphan)
      → IsVerified t start d
      → IsVerified t start (check_in_orphan_data d index os)
  unfolding check_in_orphan_data with_orphans
  check_in-IsVerified d index os v =
      some_cases (IsVerified t start) (find_piece index d.orphan_map) _ _ (λ _. v) (λ old _. v)

  pub abandon_task-IsVerified :
      (d : Depot) (index : ℕ) → IsVerified t start d → IsVerified t start (abandon_task t d index)
  unfolding abandon_task
  abandon_task-IsVerified d index v =
      if_cases (IsVerified t start) (ltb index t.piece_count) _ _ (λ _. v) (λ _. v)

  open_share-IsVerified :
      (d : Depot) (index : ℕ) → IsVerified t start d → IsVerified t start (open_share t d index).0
  unfolding open_share ask_share hash_ok
  open_share-IsVerified d index v =
      let P = λ (x : Depot × Option (ℕ × ℕ)). IsVerified t start x.0 in
      let out = check_out_orphan_data d index in
      let w = check_out-IsVerified d index v in
      let r = adopt (new_share t d index) out.1 in
      if_cases P (not (is_finish r)) _ _ (λ _. w)
        (λ _.
          if_cases P (hash_ok t index (get_piece_data r)) _ _
            (λ e.
              write_piece-IsVerified out.0 index (get_piece_data r)
                (equal_sound (t.sha1_string (get_piece_data r)) (t.piece_hash index) e) w)
            (λ _. w))

  pub get_share_task-IsVerified :
      (d : Depot) (index : ℕ)
      → IsVerified t start d
      → IsVerified t start (get_share_task t d index).0
  unfolding get_share_task ask_share
  get_share_task-IsVerified d index v =
      let P = λ (x : Depot × Option (ℕ × ℕ)). IsVerified t start x.0 in
      if_cases P (is_set d.storage.finished index) _ _ (λ _. v)
        (λ _.
          some_cases P (find_piece index d.shares) _ _ (λ _. open_share-IsVerified d index v)
            (λ r _. v))

  settle_share-IsVerified :
      (d : Depot) (index : ℕ) (r : ShareRequest)
      → IsVerified t start d
      → IsVerified t start (settle_share t d index r).0
  unfolding settle_share check_hash get_piece_data
  settle_share-IsVerified d index r v =
      elim (Bool-cases (equal (t.sha1_string (get_piece_data r)) (t.piece_hash index))) [
        | inl e ↦
            rw (e, settle_share, check_hash)
              (write_piece-IsVerified d index (get_piece_data r)
                (equal_sound (t.sha1_string (get_piece_data r)) (t.piece_hash index) e) v)
        | inr e ↦ rw (e, settle_share, check_hash) v
      ]

  pub submit_share_data-IsVerified :
      (d : Depot) (source index offset : ℕ) (bytes : List ℕ)
      → IsVerified t start d
      → IsVerified t start (submit_share_data t d source index offset bytes).0
  unfolding submit_share_data
  submit_share_data-IsVerified d source index offset bytes v =
      let P = λ (x : Depot × Bool). IsVerified t start x.0 in
      if_cases P (is_set d.storage.finished index) _ _ (λ _. v)
        (λ _.
          some_cases P (find_piece index d.shares) _ _ (λ _. v)
            (λ r _.
              let r' = (set_data r source offset bytes).0 in
              if_cases P (not (is_finish r')) _ _ (λ _. v)
                (λ _. settle_share-IsVerified d index r' v)))
