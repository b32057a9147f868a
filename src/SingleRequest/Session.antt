-- ===== src/SingleRequest/Session.antt =====
-- A whole task of SingleRequest.cpp: from `Init` to `IsFinish`, with every call that BTPeer.cpp makes
-- in between.
use benliud.Common.{
  ℕ, ◌+◌, ◌-◌, ◌%◌, ◌^◌, ◌≤◌, ◌<◌, ◌≡◌, refl, ap, sym, ◌∙◌, arith, true, false, not, leb, replicate,
  if_cases, ◌&&◌, List, [], ◌∷◌, map, All, some, length, Bool-cases, Option-cases, inl, inr, ◌==◌,
}
use benliud.Common.Slices
use benliud.Common.Search.{find_first, update_first-All}
use benliud.SingleRequest.{
  RequestBlock, SingleRequest, init, reset, starts_at, takes, no_bytes, not_pending,
  reset_pending_request, reset_pending_request_at, mark_pending_request, zero_inside,
  set_virtual_data, is_finish, get_piece_data,
}
use benliud.SingleRequest.Alien.{drop_alien, set_alien, clear_alien}
use benliud.SingleRequest.Clock.{choke_notice}
use benliud.SingleRequest.Tiles.{Tiled, Tiled-map, Tiled-update_first}
use benliud.SingleRequest.Data.{
  slice, slice_eq, Agrees, IsFaithful, init-IsFaithful, set_data-IsFaithful, get_task-IsFaithful,
  get_piece_data_of_finish,
}
use benliud.SingleRequest.Calls.{
  Call, inits, gets_task, marks_pending, sets_data, resets_pending_at, resets, sets_alien,
  clears_alien, sets_virtual, chokes, resets_pending, step, run,
}

-- A call within the task: data that comes is the part of the piece that it claims to be, and the range
-- of `SetVirtualData` is zero in the piece. `Init` and `Reset` begin another task.
abbrev pub IsHonest : List ℕ → Call → Type 0
IsHonest piece (sets_data offset bytes now) = bytes ≡ slice piece offset (length bytes)
IsHonest piece (sets_alien iip offset bytes) = bytes ≡ slice piece offset (length bytes)
IsHonest piece (inits index n) = ⊥
IsHonest piece resets = ⊥
IsHonest piece (sets_virtual offset len) =
    (offset + len ≤ length piece)
    × (length piece < 4294967296)
    × (Slices.slice offset len piece ≡ replicate len 0)
IsHonest piece _ = Unit

All-map :
    (P : RequestBlock → Type 0) (f : RequestBlock → RequestBlock) (bs : List RequestBlock)
    → ((b : RequestBlock) → P b → P (f b))
    → All P bs
    → All P (map f bs)
All-map P f [] k h = tt
All-map P f (b ∷ bs) k h = (k b h.0, All-map P f bs k h.1)

dropped :
    (piece : List ℕ) (iip : ℕ) (b : RequestBlock) → Agrees piece b → Agrees piece (drop_alien iip b)
unfolding drop_alien
dropped piece iip b a = elim (Bool-cases (not (b.source == iip) && not (no_bytes b))) [
  | inl e ↦ rw e (inl refl)
  | inr e ↦ rw e a
]

drop_alien-shape :
    (iip : ℕ) (b : RequestBlock)
    → ((drop_alien iip b).offset ≡ b.offset) × ((drop_alien iip b).length ≡ b.length)
unfolding drop_alien
drop_alien-shape iip b = elim (Bool-cases (not (b.source == iip) && not (no_bytes b))) [
  | inl e ↦ rw e (refl, refl)
  | inr e ↦ rw e (refl, refl)
]

zero_inside-shape :
    (offset len : ℕ) (b : RequestBlock)
    → ((zero_inside offset len b).offset ≡ b.offset)
      × ((zero_inside offset len b).length ≡ b.length)
unfolding zero_inside
zero_inside-shape offset len b = ground arith

Tiled-le : (at end : ℕ) (bs : List RequestBlock) → Tiled at end bs → at ≤ end
Tiled-le at end [] t = omega (arith, t)
Tiled-le at end (b ∷ bs) t = omega (arith, Tiled-le (at + b.length) end bs t.3)

-- A block in a range that is zero in the piece.
zero_inside-Agrees :
    (piece : List ℕ) (offset len : ℕ) (b : RequestBlock)
    → IsHonest piece (sets_virtual offset len)
    → b.offset + b.length ≤ length piece
    → Agrees piece b
    → Agrees piece (zero_inside offset len b)
unfolding zero_inside
zero_inside-Agrees piece offset len b h l a =
    if_cases (Agrees piece)
      (leb offset b.offset && leb ((b.offset + b.length) % 2 ^ 32) ((offset + len) % 2 ^ 32))
      (record b { bytes = replicate b.length 0; source = 0 }) b
      (λ e.
        let low : offset ≤ b.offset = ground (arith, e) in
        let high : b.offset + b.length ≤ offset + len = ground (arith, e, l, h.0, h.1) in
        let k : ℕ = b.offset - offset in
        let inside : k + b.length ≤ len = omega (arith, low, high) in
        inr (
          sym (Slices.slice-replicate k b.length len inside)
          ∙ ap (Slices.slice k b.length) (sym h.2)
          ∙ Slices.slice-slice offset len k b.length piece inside
          ∙ ap (λ o. Slices.slice o b.length piece) {x = offset + k} {y = b.offset}
              (omega (arith, low))))
      (λ _. a)

zeros_agree :
    (piece : List ℕ) (offset len at : ℕ) (bs : List RequestBlock)
    → IsHonest piece (sets_virtual offset len)
    → Tiled at (length piece) bs
    → All (Agrees piece) bs
    → All (Agrees piece) (map (zero_inside offset len) bs)
zeros_agree piece offset len at [] h t a = tt
zeros_agree piece offset len at (b ∷ bs) h t a = (
  zero_inside-Agrees piece offset len b h
      (omega (arith, t.0, Tiled-le (at + b.length) (length piece) bs t.3)) a.0,
  zeros_agree piece offset len (at + b.length) bs h t.3 a.1,
)

step-IsFaithful :
    (piece : List ℕ) (r : SingleRequest) (c : Call)
    → IsHonest piece c
    → IsFaithful piece r
    → IsFaithful piece (step r c)
unfolding step choke_notice reset_pending_request not_pending set_alien clear_alien
    mark_pending_request reset_pending_request_at set_virtual_data
step-IsFaithful piece r (gets_task now) h v = get_task-IsFaithful piece r now v
step-IsFaithful piece r (sets_data offset bytes now) h v =
    set_data-IsFaithful piece r offset now bytes h v
step-IsFaithful piece r (chokes true now) h v = record { tiled = v.tiled; agree = v.agree }
step-IsFaithful piece r (chokes false now) h v = record { tiled = v.tiled; agree = v.agree }
step-IsFaithful piece r resets_pending h v = record {
  tiled = Tiled-map not_pending 0 (length piece) r.blocks (λ b. (refl, refl)) v.tiled;
  agree = All-map (Agrees piece) not_pending r.blocks (λ b a. a) v.agree;
}
step-IsFaithful piece r (clears_alien iip) h v = record {
  tiled = Tiled-map (drop_alien iip) 0 (length piece) r.blocks (drop_alien-shape iip) v.tiled;
  agree = All-map (Agrees piece) (drop_alien iip) r.blocks (dropped piece iip) v.agree;
}
step-IsFaithful piece r (sets_alien iip offset bytes) h v = record {
  tiled = Tiled-update_first _ _ 0 (length piece) r.blocks (λ b. (refl, refl)) v.tiled;
  agree =
      update_first-All (Agrees piece) (takes offset bytes) _ r.blocks
        (λ c hit _. inr (h ∙ slice_eq piece offset bytes c hit)) v.agree;
}
step-IsFaithful piece r (marks_pending offset now) h v =
    elim (Option-cases (find_first (starts_at offset) r.blocks)) [
      | inl e ↦ rw (e, step, mark_pending_request) v
      | inr (b, e) ↦ elim (Bool-cases b.pending) [
        | inl p ↦ rw (e, step, mark_pending_request, p) v
        | inr p ↦
            rw (e, step, mark_pending_request, p)
              (record {
                tiled =
                    Tiled-update_first _ _ 0 (length piece) r.blocks (λ b. (refl, refl)) v.tiled;
                agree =
                    update_first-All (Agrees piece) (starts_at offset) _ r.blocks (λ c _ a. a)
                      v.agree;
              })
      ]
    ]
step-IsFaithful piece r (resets_pending_at offset) h v =
    elim (Option-cases (find_first (starts_at offset) r.blocks)) [
      | inl e ↦ rw (e, step, reset_pending_request_at) v
      | inr (b, e) ↦
          rw (e, step, reset_pending_request_at)
            (record {
              tiled = Tiled-update_first _ _ 0 (length piece) r.blocks (λ b. (refl, refl)) v.tiled;
              agree =
                  update_first-All (Agrees piece) (starts_at offset) _ r.blocks (λ c _ a. a)
                    v.agree;
            })
    ]
step-IsFaithful piece r (inits index n) h v = absurd h
step-IsFaithful piece r resets h v = absurd h
step-IsFaithful piece r (sets_virtual offset len) h v = record {
  tiled =
      Tiled-map (zero_inside offset len) 0 (length piece) r.blocks (zero_inside-shape offset len)
        v.tiled;
  agree = zeros_agree piece offset len 0 r.blocks h v.tiled v.agree;
}

run-IsFaithful :
    (piece : List ℕ) (r : SingleRequest) (cs : List Call)
    → All (IsHonest piece) cs
    → IsFaithful piece r
    → IsFaithful piece (run r cs)
unfolding run
run-IsFaithful piece r [] h v = v
run-IsFaithful piece r (c ∷ cs) h v =
    run-IsFaithful piece (step r c) cs h.1 (step-IsFaithful piece r c h.0 v)

-- Whatever calls but `Init` and `Reset` follow the `Init` of a reset request for a piece, in whatever
-- order, if the data that they bring are parts of the piece where they claim to be, and the ranges of
-- `SetVirtualData` lie within the piece, which is zero there and shorter than 2^32 bytes, then once
-- `IsFinish` holds `GetPieceData` is the piece.
pub get_piece_data-run :
    (piece : List ℕ) (r : SingleRequest) (index : ℕ) (cs : List Call)
    → All (IsHonest piece) cs
    → is_finish (run (init (reset r) (some index) (length piece)) cs) ≡ true
    → get_piece_data (run (init (reset r) (some index) (length piece)) cs) ≡ piece
get_piece_data-run piece r index cs h f =
    get_piece_data_of_finish piece _
      (run-IsFaithful piece (init (reset r) (some index) (length piece)) cs h
        (init-IsFaithful r index piece))
      f
