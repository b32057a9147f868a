-- ===== src/Storage/Choose.antt =====
-- `GetPieceTask` of benliud_bt/src/BTStorage.cpp as a whole: what it gives a peer to do.
use benliud.Common.{
  ℕ, ◌*◌, ◌≤◌, ◌<◌, ◌≡◌, ◌⊎◌, refl, Bool, true, false, not, ◌&&◌, arith, [], ◌∷◌, Option, none,
  some, length, ltb, ◌==◌, if◌then◌else◌, Bool-cases, Option-cases, inl, inr, subst, ltb→lt, ltb→ge,
}
use benliud.Common.Int.{ℤ, pos, negsuc, above, to_nat}
use benliud.Piece.{BtPiece, is_set}
use benliud.PieceSum.{get_value}
use benliud.Storage.{
  Storage, DownloadingMap, Chance, task, take_task, count_of, wanted, open_value, may_share,
  max_prio, open_piece, open_task, shared_piece, overlap_piece, busy_piece, cooperates,
  get_left_piece_count, get_piece_task,
}
use benliud.Storage.Choice.{Good, Small, max_prio-ge, open_piece-Good}

-- The peer has the piece, we have not, and its files are wanted.
pub record IsWanted (s : Storage) (peer : BtPiece) (p : ℕ) : Type 0 where
  pub offered : is_set peer p ≡ true
  pub missing : is_set s.finished p ≡ false
  pub selected : above (get_value s.priority p) 0 ≡ true

test_all :
    (a b : Bool) (z : ℤ)
    → above (if a && not b then z else pos 0) 0 ≡ true
    → (a ≡ true) × (b ≡ false) × (above z 0 ≡ true)
test_all true false z h = (refl, refl, h)
test_all true true z h = absurd (ground arith)
test_all false b z h = absurd (ground arith)

wanted-IsWanted :
    (s : Storage) (peer : BtPiece) (p : ℕ) → Good (wanted s peer) p → IsWanted s peer p
unfolding wanted
wanted-IsWanted s peer p h =
    let (offered, missing, selected) =
      test_all (is_set peer p) (is_set s.finished p) (get_value s.priority p) h in
    record { offered = offered; missing = missing; selected = selected }

test_first : (a : Bool) (z : ℤ) → above (if a then z else pos 0) 0 ≡ true → above z 0 ≡ true
test_first true z h = h
test_first false z h = absurd (ground arith)

open_value-wanted :
    (s : Storage) (peer : BtPiece) (p : ℕ) → Good (open_value s peer) p → Good (wanted s peer) p
unfolding open_value
open_value-wanted s peer p h = elim (Option-cases (count_of p s.downloading)) [
  | inl e ↦ rw (e, open_value) at h
  | inr (c, e) ↦
      test_first (may_share (get_value s.priority p) c) (wanted s peer p) (rw (e, open_value) at h)
]

may_share-above : (z : ℤ) (c : ℕ) → may_share z c ≡ true → above z 0 ≡ true
unfolding may_share
may_share-above (pos n) c h = ground arith
may_share-above (negsuc n) c h = absurd (cc)

some_injective : (a b : ℕ) → some a ≡ some b → a ≡ b
some_injective a b h = cc h

none_ne : (p : ℕ) → (none ≡ some p) → ⊥
none_ne p h = cc h

first_true : (a b : Bool) → (a && b) ≡ true → a ≡ true
first_true a b h = ground arith

ap_above : (f : ℕ → ℤ) (j p : ℕ) → j ≡ p → Good f j → Good f p
ap_above f j p e h = subst (Good f) e h

shared_piece-Good : (f : ℕ → ℤ) (m : DownloadingMap) (p : ℕ) → shared_piece f m ≡ some p → Good f p
unfolding shared_piece
shared_piece-Good f [] p h = absurd (cc)
shared_piece-Good f ((k, c) ∷ m) p h = elim (Bool-cases (may_share (f k) c)) [
  | inl e ↦ ap_above f k p (some_injective k p (rw e at h)) (may_share-above (f k) c e)
  | inr e ↦ shared_piece-Good f m p (rw e at h)
]

overlap_piece-Good :
    (f : ℕ → ℤ) (idx : Option ℕ) (overlap : ℕ) (m : DownloadingMap) (p : ℕ)
    → ((q : ℕ) → idx ≡ some q → Good f q)
    → overlap_piece f idx overlap m ≡ some p
    → Good f p
unfolding overlap_piece
overlap_piece-Good f idx overlap [] p ok h = ok p h
overlap_piece-Good f idx overlap ((k, c) ∷ m) p ok h = elim (Bool-cases (c == 0)) [
  | inl e ↦ absurd (none_ne p (rw e at h))
  | inr e ↦ elim (Bool-cases (above (f k) 0 && ltb c overlap)) [
    | inl q ↦
        overlap_piece-Good f (some k) c m p
          (λ j x.
            ap_above f k j (some_injective k j x) (first_true (above (f k) 0) (ltb c overlap) q))
          (rw (e, q) at h)
    | inr q ↦ overlap_piece-Good f idx overlap m p ok (rw (e, q) at h)
  ]
]

busy_piece-Good :
    (s : Storage) (peer : BtPiece) (p : ℕ) → busy_piece s peer ≡ some p → Good (wanted s peer) p
unfolding busy_piece
busy_piece-Good s peer p h =
    elim (Bool-cases (ltb (length s.downloading * 2) (get_left_piece_count s))) [
      | inl e ↦ shared_piece-Good (wanted s peer) s.downloading p (rw e at h)
      | inr e ↦
          overlap_piece-Good (wanted s peer) none 20 s.downloading p (λ q x. absurd (none_ne q x))
            (rw e at h)
    ]

not_zero_above : (z : ℤ) → to_nat z ≤ 0 → above z 0 ≡ false
not_zero_above (pos n) h = ground arith
not_zero_above (negsuc n) h = refl

-- `GetPieceTask` gives a peer a piece that the peer has, that we have not, and whose priority is above
-- 0, and counts one more peer for it; or it gives none and changes nothing, and then no piece is open
-- for this peer: each one that it has and that is wanted is asked of enough other peers. No counter of
-- the pieces is above 0x0FFFFFFF.
pub get_piece_task_lem :
    (s : Storage) (peer : BtPiece) (r : Chance)
    → Small s.piece_sum
    → ((get_piece_task s peer r ≡ (s, none))
        × ((i : ℕ) → i < s.priority.size → above (open_value s peer i) 0 ≡ false))
      ⊎ ((p : ℕ) × (c : Bool) × (get_piece_task s peer r ≡ (take_task s p, some (task p c)))
          × IsWanted s peer p)
unfolding get_piece_task open_task
get_piece_task_lem s peer r small =
    let m = max_prio s.priority.size (open_value s peer) in
    elim (Bool-cases (ltb 0 m)) [
      | inl e ↦
          let p = open_piece s peer r m in
          inr (
            p,
            cooperates s p,
            rw (e, get_piece_task) refl,
            wanted-IsWanted s peer p
                (open_value-wanted s peer p (open_piece-Good s peer r small (ltb→lt 0 m e))),
          )
      | inr e ↦ elim (Option-cases (busy_piece s peer)) [
        | inl q ↦ inl (
          rw (e, q, get_piece_task) refl,
          λ i h.
              not_zero_above (open_value s peer i)
                (omega (arith, max_prio-ge s.priority.size i (open_value s peer) h, ltb→ge 0 m e)),
        )
        | inr (p, q) ↦ inr (
          p,
          true,
          rw (e, q, get_piece_task) refl,
          wanted-IsWanted s peer p (busy_piece-Good s peer p q),
        )
      ]
    ]
