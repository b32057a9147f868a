-- ===== src/PieceSum/Laws.antt =====
-- The counters of BTPieceSum.cpp one by one: what `+=`, `-=`, `NewPiece` and `SetValue` do to each.
use benliud.Common.{
  ℕ, zero, suc, ◌+◌, ◌≤◌, ◌<◌, ◌≡◌, refl, ◌∙◌, Bool, true, false, arith, List, length, get_or, leb,
  ltb, ◌==◌, ◌&&◌, if◌then◌else◌, length-set, length-replicate, get_or-set_self, get_or-set_ne,
  get_or-replicate, Bool-cases, inl, inr,
}
use benliud.Piece.{BtPiece, is_set, count_below}
use benliud.Common.Int.{succ, ℤ, pos}
use benliud.PieceSum.{
  BtPieceSum, drop_one, nonzero, init, add_below, sub_below, add, sub, new_piece, get_value,
  get_set_count, get_unset_count,
}

-- One counter for each piece.
pub record IsValid (s : BtPieceSum) : Type 0 where
  pub sized : length s.values ≡ s.size

length-add_below : (n : ℕ) (peer : BtPiece) (vs : List ℤ) → length (add_below n peer vs) ≡ length vs
unfolding add_below
length-add_below zero peer vs = refl
length-add_below (suc n) peer vs = ground (
  arith,
  length-add_below n peer vs,
  length-set (add_below n peer vs) n (succ (get_or (add_below n peer vs) n (pos 0))),
)

length-sub_below : (n : ℕ) (peer : BtPiece) (vs : List ℤ) → length (sub_below n peer vs) ≡ length vs
unfolding sub_below
length-sub_below zero peer vs = refl
length-sub_below (suc n) peer vs = ground (
  arith,
  length-sub_below n peer vs,
  length-set (sub_below n peer vs) n (drop_one (get_or (sub_below n peer vs) n (pos 0))),
)

get_or-add_below :
    (n k : ℕ) (peer : BtPiece) (vs : List ℤ)
    → n ≤ length vs
    → get_or (add_below n peer vs) k (pos 0)
      ≡ (if ltb k n && is_set peer k then succ (get_or vs k (pos 0)) else get_or vs k (pos 0))
unfolding add_below
get_or-add_below zero k peer vs h = ground arith
get_or-add_below (suc n) k peer vs h = ground (
  arith,
  length-add_below n peer vs,
  get_or-add_below n k peer vs (omega arith),
  get_or-set_self (add_below n peer vs) n (succ (get_or (add_below n peer vs) n (pos 0))) (pos 0),
  get_or-set_ne (add_below n peer vs) n k (succ (get_or (add_below n peer vs) n (pos 0))) (pos 0),
)

get_or-sub_below :
    (n k : ℕ) (peer : BtPiece) (vs : List ℤ)
    → n ≤ length vs
    → get_or (sub_below n peer vs) k (pos 0)
      ≡ (if ltb k n && is_set peer k then drop_one (get_or vs k (pos 0)) else get_or vs k (pos 0))
unfolding sub_below
get_or-sub_below zero k peer vs h = ground arith
get_or-sub_below (suc n) k peer vs h = ground (
  arith,
  length-sub_below n peer vs,
  get_or-sub_below n k peer vs (omega arith),
  get_or-set_self (sub_below n peer vs) n (drop_one (get_or (sub_below n peer vs) n (pos 0)))
      (pos 0),
  get_or-set_ne (sub_below n peer vs) n k (drop_one (get_or (sub_below n peer vs) n (pos 0)))
      (pos 0),
)

pub init-IsValid : (size : ℕ) (v : ℤ) → IsValid (init size v)
unfolding init
init-IsValid size v = record { sized = length-replicate size v }

pub size-init : (size : ℕ) (v : ℤ) → (init size v).size ≡ size
unfolding init
size-init size v = refl

pub add-IsValid : (s : BtPieceSum) (peer : BtPiece) → IsValid s → IsValid (add s peer)
unfolding add
add-IsValid s peer v = record { sized = length-add_below s.size peer s.values ∙ v.sized }

pub sub-IsValid : (s : BtPieceSum) (peer : BtPiece) → IsValid s → IsValid (sub s peer)
unfolding sub
sub-IsValid s peer v = record { sized = length-sub_below s.size peer s.values ∙ v.sized }

pub size-add : (s : BtPieceSum) (peer : BtPiece) → (add s peer).size ≡ s.size
unfolding add
size-add s peer = refl

pub size-sub : (s : BtPieceSum) (peer : BtPiece) → (sub s peer).size ≡ s.size
unfolding sub
size-sub s peer = refl

pub get_value-init : (size i : ℕ) (v : ℤ) → i < size → get_value (init size v) i ≡ v
unfolding get_value init
get_value-init size i v h = ground (arith, get_or-replicate size i v (pos 0) h)

pub get_value-add :
    (s : BtPieceSum) (peer : BtPiece) (i : ℕ)
    → IsValid s
    → i < s.size
    → get_value (add s peer) i ≡ (if is_set peer i then succ (get_value s i) else get_value s i)
unfolding get_value add
get_value-add s peer i v h =
    ground (arith, get_or-add_below s.size i peer s.values (omega (arith, v.sized)))

pub get_value-sub :
    (s : BtPieceSum) (peer : BtPiece) (i : ℕ)
    → IsValid s
    → i < s.size
    → get_value (sub s peer) i ≡ (if is_set peer i then drop_one (get_value s i) else get_value s i)
unfolding get_value sub
get_value-sub s peer i v h =
    ground (arith, get_or-sub_below s.size i peer s.values (omega (arith, v.sized)))

pub get_value-new_piece :
    (s : BtPieceSum) (i j : ℕ)
    → IsValid s
    → i < s.size
    → get_value (new_piece s i) j ≡ (if i == j then succ (get_value s j) else get_value s j)
unfolding get_value new_piece
get_value-new_piece s i j v h = ground (
  arith,
  v.sized,
  get_or-set_self s.values i (succ (get_or s.values i (pos 0))) (pos 0),
  get_or-set_ne s.values i j (succ (get_or s.values i (pos 0))) (pos 0),
)

pub new_piece-IsValid : (s : BtPieceSum) (i : ℕ) → IsValid s → IsValid (new_piece s i)
unfolding new_piece
new_piece-IsValid s i v = elim (Bool-cases (leb s.size i)) [
  | inl e ↦ rw e v
  | inr e ↦ rw e (record { sized = length-set s.values i _ ∙ v.sized })
]

pub size-new_piece : (s : BtPieceSum) (i : ℕ) → (new_piece s i).size ≡ s.size
unfolding new_piece
size-new_piece s i = ground arith

count_below-split :
    (n : ℕ) (f : ℕ → Bool) → count_below n f + count_below n (λ i. if f i then false else true) ≡ n
unfolding count_below
count_below-split zero f = refl
count_below-split (suc n) f = ground (arith, count_below-split n f)

-- Every piece is counted once, as available or as missing.
get_set_count-add-get_unset_count : (s : BtPieceSum) → get_set_count s + get_unset_count s ≡ s.size
unfolding get_set_count get_unset_count
get_set_count-add-get_unset_count s =
    count_below-split s.size (λ i. nonzero (get_or s.values i (pos 0)))
