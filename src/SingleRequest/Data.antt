-- ===== src/SingleRequest/Data.antt =====
-- The data of SingleRequest.cpp: what comes for the blocks is the piece, once all of it has come.
use benliud.Common.{
  ℕ, zero, suc, ◌+◌, ◌≡◌, ◌⊎◌, refl, ap, sym, ◌∙◌, true, not, arith, List, [], ◌∷◌, some, length,
  take, drop, take-append-drop, drop-drop, drop-length, All, ltb, Bool-cases, Option-cases, inl,
  inr,
}
use benliud.Common.Search.{find_first, all_iff, update_first-All}
use benliud.SingleRequest.{
  RequestBlock, SingleRequest, no_bytes, takes, is_free, all_data, is_finish, get_piece_data,
  set_data, get_task, block_at, decompose, init, reset,
}
use benliud.SingleRequest.Tiles.{Tiled, decompose-Tiled, Tiled-update_first}

-- The bytes of a piece that a block stands for.
abbrev pub slice : List ℕ → ℕ → ℕ → List ℕ
slice piece offset len = take len (drop offset piece)

-- What a block holds is nothing or its part of the piece.
abbrev pub Agrees : List ℕ → RequestBlock → Type 0
Agrees piece b = (b.bytes ≡ []) ⊎ (b.bytes ≡ slice piece b.offset b.length)

-- The blocks tile the piece, and hold no bytes but its own.
pub record IsFaithful (piece : List ℕ) (r : SingleRequest) : Type 0 where
  pub tiled : Tiled 0 (length piece) r.blocks
  pub agree : All (Agrees piece) r.blocks

no_bytes_nil : (b : RequestBlock) → b.bytes ≡ [] → not (no_bytes b) ≡ true → ⊥
unfolding no_bytes
no_bytes_nil b e h = ground (arith, ap length e)

pub slice_eq :
    (piece : List ℕ) (offset : ℕ) (bytes : List ℕ) (c : RequestBlock)
    → takes offset bytes c ≡ true
    → slice piece offset (length bytes) ≡ slice piece c.offset c.length
unfolding takes
slice_eq piece offset bytes c h =
    let p : offset ≡ c.offset = ground arith in
    let q : length bytes ≡ c.length = ground arith in rw (p, q)

decompose-Agrees :
    (piece : List ℕ) (fuel n offset : ℕ) → All (Agrees piece) (decompose fuel n offset)
unfolding decompose block_at
decompose-Agrees piece zero n offset = tt
decompose-Agrees piece (suc fuel) n offset = elim (Bool-cases (ltb offset n)) [
  | inl e ↦ rw e (inl refl, decompose-Agrees piece fuel n _)
  | inr e ↦ rw e tt
]

all_data-drop :
    (piece : List ℕ) (offset : ℕ) (bs : List RequestBlock)
    → Tiled offset (length piece) bs
    → All (Agrees piece) bs
    → All (λ b. not (no_bytes b) ≡ true) bs
    → all_data bs ≡ drop offset piece
unfolding all_data
all_data-drop piece offset [] t a f = sym (drop-length offset piece (omega arith))
all_data-drop piece offset (b ∷ bs) t a f =
    rw (all_data-drop piece (offset + b.length) bs t.3 a.1 f.1, ← drop-drop offset b.length piece)
      (rw here (take-append-drop b.length (drop offset piece)))
  where
    here : b.bytes ≡ take b.length (drop offset piece)
    here = elim a.0 [
      | inl e ↦ absurd (no_bytes_nil b e f.0)
      | inr e ↦ e ∙ ap (λ o. slice piece o b.length) t.0
    ]

-- `Init` on a request that is reset starts with no data: it is faithful to every piece of the
-- length that it is given.
pub init-IsFaithful :
    (r : SingleRequest) (index : ℕ) (piece : List ℕ)
    → IsFaithful piece (init (reset r) (some index) (length piece))
unfolding init reset
init-IsFaithful r index piece = record {
  tiled = (decompose-Tiled (length piece) (length piece) 0 (omega arith) (omega arith)).0;
  agree = decompose-Agrees piece (length piece) (length piece) 0;
}

-- A request whose blocks tile the piece and hold nothing or their part of it stays so when
-- `SetData` brings the part of the piece that it claims to bring.
pub set_data-IsFaithful :
    (piece : List ℕ) (r : SingleRequest) (offset now : ℕ) (bytes : List ℕ)
    → bytes ≡ slice piece offset (length bytes)
    → IsFaithful piece r
    → IsFaithful piece (set_data r offset bytes now).0
unfolding set_data
set_data-IsFaithful piece r offset now bytes honest v =
    elim (Option-cases (find_first (takes offset bytes) r.blocks)) [
      | inl e ↦ rw (e, set_data) v
      | inr (b, e) ↦
          rw (e, set_data)
            (record {
              tiled = Tiled-update_first _ _ 0 (length piece) r.blocks (λ b. (refl, refl)) v.tiled;
              agree =
                  update_first-All (Agrees piece) (takes offset bytes) _ r.blocks
                    (λ c hit _. inr (honest ∙ slice_eq piece offset bytes c hit)) v.agree;
            })
    ]

-- `GetTask` keeps the request faithful.
pub get_task-IsFaithful :
    (piece : List ℕ) (r : SingleRequest) (now : ℕ)
    → IsFaithful piece r
    → IsFaithful piece (get_task r now).0
unfolding get_task
get_task-IsFaithful piece r now v = elim (Option-cases (find_first is_free r.blocks)) [
  | inl e ↦ rw (e, get_task) v
  | inr (b, e) ↦
      rw (e, get_task)
        (record {
          tiled = Tiled-update_first _ _ 0 (length piece) r.blocks (λ b. (refl, refl)) v.tiled;
          agree = update_first-All (Agrees piece) is_free _ r.blocks (λ c _ a. a) v.agree;
        })
]

-- Once `IsFinish` holds, `GetPieceData` is the piece itself.
pub get_piece_data_of_finish :
    (piece : List ℕ) (r : SingleRequest)
    → IsFaithful piece r
    → is_finish r ≡ true
    → get_piece_data r ≡ piece
unfolding is_finish get_piece_data
get_piece_data_of_finish piece r v f =
    all_data-drop piece 0 r.blocks v.tiled v.agree ((all_iff _ r.blocks).0 f)
