-- ===== src/Storage/Choice.antt =====
-- The loops of `GetPieceTask` of benliud_bt/src/BTStorage.cpp: what they find has a value above 0, and
-- they find something if there is anything.
use benliud.Common.{
  ℕ, zero, suc, ◌%◌, ◌≤◌, ◌<◌, ◌≡◌, refl, ap, true, false, arith, List, [], ◌∷◌, ◌++◌, Option, none,
  some, All, All-append, length, get_or, ltb, leb, ◌==◌, Bool-cases, inl, inr, ==_iff, ==_refl,
  length-append,
}
use native.Mathlib.Nat.{mod-lt}
use benliud.Common.Int.{ℤ, pos, negsuc, above, to_nat, lt_int, eq_int}
use benliud.Piece.{BtPiece}
use benliud.PieceSum.{BtPieceSum, get_value}
use benliud.Storage.{
  Storage, Chance, open_value, max_prio, best_orphan, max_priority_list, least_list, random_piece,
  orphan_or, open_piece,
}

-- A piece with a value above 0.
abbrev pub Good : (ℕ → ℤ) → ℕ → Type 0
Good f p = above (f p) 0 ≡ true

eq_int_lem : (a b : ℤ) → eq_int a b ≡ true → a ≡ b
unfolding eq_int
eq_int_lem (pos m) (pos n) h = ap pos ((==_iff m n).0 h)
eq_int_lem (negsuc m) (negsuc n) h = ap negsuc ((==_iff m n).0 h)
eq_int_lem (pos m) (negsuc n) h = absurd (cc)
eq_int_lem (negsuc m) (pos n) h = absurd (cc)

above_lem : (z : ℤ) (m : ℕ) → above z m ≡ true → m < to_nat z
above_lem (pos n) m h = ground arith
above_lem (negsuc n) m h = absurd (cc)

not_above_lem : (z : ℤ) (m : ℕ) → above z m ≡ false → to_nat z ≤ m
not_above_lem (pos n) m h = ground arith
not_above_lem (negsuc n) m h = omega arith

eq_int-to_nat : (z : ℤ) (m : ℕ) → above z m ≡ true → eq_int z (pos (to_nat z)) ≡ true
unfolding eq_int
eq_int-to_nat (pos n) m h = ==_refl n
eq_int-to_nat (negsuc n) m h = absurd (cc)

above_zero : (z : ℤ) (m : ℕ) → above z m ≡ true → above z 0 ≡ true
above_zero (pos n) m h = ground arith
above_zero (negsuc n) m h = absurd (cc)

-- The maximum is above every value, and is reached if it is not 0.
pub max_prio-ge : (n i : ℕ) (f : ℕ → ℤ) → i < n → to_nat (f i) ≤ max_prio n f
unfolding max_prio
max_prio-ge zero i f h = absurd (omega arith)
max_prio-ge (suc n) i f h =
    let m = max_prio n f in
    elim (Bool-cases (above (f n) m)) [
      | inl e ↦ rw e (elim (Bool-cases (i == n)) [
        | inl q ↦ omega (arith, ap (λ k. to_nat (f k)) ((==_iff i n).0 q))
        | inr q ↦ omega (arith, max_prio-ge n i f (ground (arith, h, q)), above_lem (f n) m e)
      ])
      | inr e ↦ rw e (elim (Bool-cases (i == n)) [
        | inl q ↦ omega (arith, ap (λ k. to_nat (f k)) ((==_iff i n).0 q), not_above_lem (f n) m e)
        | inr q ↦ max_prio-ge n i f (ground (arith, h, q))
      ])
    ]

length_snoc : (xs : List ℕ) (n : ℕ) → 0 < length (xs ++ n ∷ [])
length_snoc xs n = omega (arith, length-append xs (n ∷ []))

max_prio-list :
    (n : ℕ) (f : ℕ → ℤ) → 0 < max_prio n f → 0 < length (max_priority_list n f (max_prio n f))
unfolding max_prio max_priority_list
max_prio-list zero f p = absurd (omega arith)
max_prio-list (suc n) f p = elim (Bool-cases (above (f n) (max_prio n f))) [
  | inl e ↦ rw e (
      rw (eq_int-to_nat (f n) (max_prio n f) e)
        (length_snoc (max_priority_list n f (to_nat (f n))) n))
  | inr e ↦
      let reached = max_prio-list n f (rw e at p) in
      rw e (elim (Bool-cases (eq_int (f n) (pos (max_prio n f)))) [
        | inl q ↦ rw q (length_snoc (max_priority_list n f (max_prio n f)) n)
        | inr q ↦ rw q reached
      ])
]

list-Good : (n : ℕ) (f : ℕ → ℤ) (m : ℕ) → 0 < m → All (Good f) (max_priority_list n f m)
unfolding max_priority_list
list-Good zero f m h = tt
list-Good (suc n) f m h = elim (Bool-cases (eq_int (f n) (pos m))) [
  | inl e ↦ rw e (
      All-append (Good f) (max_priority_list n f m) (n ∷ []) (list-Good n f m h)
        (rw (eq_int_lem (f n) (pos m) e) (ground arith), tt))
  | inr e ↦ rw e (list-Good n f m h)
]

-- An orphan is found with its value, which is above 0, or none is.
OrphanOk : (ℕ → ℤ) → Option ℕ × ℕ → Type 0
OrphanOk f (none, prio) = Unit
OrphanOk f (some i, prio) = (to_nat (f i) ≡ prio) × Good f i

best_orphan-OrphanOk :
    (f : ℕ → ℤ) (idx : Option ℕ) (prio : ℕ) (is : List ℕ)
    → OrphanOk f (idx, prio)
    → OrphanOk f (best_orphan f idx prio is)
unfolding best_orphan OrphanOk
best_orphan-OrphanOk f idx prio [] h = h
best_orphan-OrphanOk f idx prio (i ∷ is) h = elim (Bool-cases (above (f i) prio)) [
  | inl e ↦ rw e (best_orphan-OrphanOk f (some i) (to_nat (f i)) is (refl, above_zero (f i) prio e))
  | inr e ↦ rw e (best_orphan-OrphanOk f idx prio is h)
]

-- The rarest pieces are among the given ones, and there are any if the counters are small.
least_list-All :
    (P : ℕ → Type 0) (sum : BtPieceSum) (gmin : ℤ) (least ps : List ℕ)
    → All P least
    → All P ps
    → All P (least_list sum gmin least ps)
unfolding least_list
least_list-All P sum gmin least [] h k = h
least_list-All P sum gmin least (p ∷ ps) h k = elim (Bool-cases (lt_int (get_value sum p) gmin)) [
  | inl e ↦ rw e (least_list-All P sum (get_value sum p) (p ∷ []) ps (k.0, tt) k.1)
  | inr e ↦ rw e (elim (Bool-cases (eq_int (get_value sum p) gmin)) [
    | inl q ↦ rw q (
        least_list-All P sum gmin (least ++ p ∷ []) ps (All-append P least (p ∷ []) h (k.0, tt))
          k.1)
    | inr q ↦ rw q (least_list-All P sum gmin least ps h k.1)
  ])
]

get_or-All : (P : ℕ → Type 0) (xs : List ℕ) (i d : ℕ) → i < length xs → All P xs → P (get_or xs i d)
get_or-All P [] i d h k = absurd (omega arith)
get_or-All P (x ∷ xs) zero d h k = k.0
get_or-All P (x ∷ xs) (suc i) d h k = get_or-All P xs i d (omega arith) k.1

least_list-nonempty :
    (sum : BtPieceSum) (gmin : ℤ) (least ps : List ℕ)
    → 0 < length least
    → 0 < length (least_list sum gmin least ps)
unfolding least_list
least_list-nonempty sum gmin least [] h = h
least_list-nonempty sum gmin least (p ∷ ps) h = elim (Bool-cases (lt_int (get_value sum p) gmin)) [
  | inl e ↦ rw e (least_list-nonempty sum (get_value sum p) (p ∷ []) ps (omega arith))
  | inr e ↦ rw e (elim (Bool-cases (eq_int (get_value sum p) gmin)) [
    | inl q ↦ rw q (least_list-nonempty sum gmin (least ++ p ∷ []) ps (length_snoc least p))
    | inr q ↦ rw q (least_list-nonempty sum gmin least ps h)
  ])
]

lt_or_eq : (a b : ℤ) → lt_int b a ≡ false → lt_int a b ≡ false → eq_int a b ≡ true
unfolding lt_int eq_int
lt_or_eq (pos m) (pos n) h k = ground arith
lt_or_eq (negsuc m) (negsuc n) h k = ground arith
lt_or_eq (pos m) (negsuc n) h k = absurd (cc)
lt_or_eq (negsuc m) (pos n) h k = absurd (cc)

-- No counter is above the greatest that `gmin` starts with.
unfoldable pub Small : BtPieceSum → Type 0
Small sum = (p : ℕ) → lt_int (pos 0x0FFFFFFF) (get_value sum p) ≡ false

least_list-found :
    (sum : BtPieceSum) (ps : List ℕ)
    → Small sum
    → 0 < length ps
    → 0 < length (least_list sum (pos 0x0FFFFFFF) [] ps)
unfolding least_list Small
least_list-found sum [] h k = absurd (omega arith)
least_list-found sum (p ∷ ps) h k = elim (Bool-cases (lt_int (get_value sum p) (pos 0x0FFFFFFF))) [
  | inl e ↦ rw e (least_list-nonempty sum (get_value sum p) (p ∷ []) ps (omega arith))
  | inr e ↦
      rw (e, lt_or_eq (get_value sum p) (pos 0x0FFFFFFF) (h p) e)
        (least_list-nonempty sum (pos 0x0FFFFFFF) (p ∷ []) ps (omega arith))
]

random_piece-All :
    (P : ℕ → Type 0) (s : Storage) (r : Chance) (ps : List ℕ)
    → Small s.piece_sum
    → 0 < length ps
    → All P ps
    → P (random_piece s r ps)
unfolding random_piece
random_piece-All P s r ps small some_there h = elim (Bool-cases (ltb r.pickleast (r.first % 100))) [
  | inl e ↦ rw e (get_or-All P ps (r.second % length ps) 0 (mod-lt r.second some_there) h)
  | inr e ↦
      let least = least_list s.piece_sum (pos 0x0FFFFFFF) [] ps in
      let found = least_list-found s.piece_sum ps small some_there in
      rw e (
        get_or-All P least (r.second % length least) 0 (mod-lt r.second found)
          (least_list-All P s.piece_sum (pos 0x0FFFFFFF) [] ps tt h))
]

orphan_or-Good :
    (f : ℕ → ℤ) (maxprio : ℕ) (o : Option ℕ × ℕ) (other : ℕ)
    → OrphanOk f o
    → Good f other
    → Good f (orphan_or maxprio o other)
unfolding orphan_or OrphanOk
orphan_or-Good f maxprio (none, prio) other h k = k
orphan_or-Good f maxprio (some i, prio) other h k = elim (Bool-cases (leb maxprio prio)) [
  | inl e ↦ rw e h.1
  | inr e ↦ rw e k
]

pub open_piece-Good :
    (s : Storage) (peer : BtPiece) (r : Chance)
    → Small s.piece_sum
    → 0 < max_prio s.priority.size (open_value s peer)
    → Good (open_value s peer) (open_piece s peer r (max_prio s.priority.size (open_value s peer)))
unfolding open_piece OrphanOk
open_piece-Good s peer r small h =
    let f = open_value s peer in
    let m = max_prio s.priority.size f in
    orphan_or-Good f m (best_orphan f none 0 s.orphans)
      (random_piece s r (max_priority_list s.priority.size f m))
      (best_orphan-OrphanOk f none 0 s.orphans tt)
      (random_piece-All (Good f) s r (max_priority_list s.priority.size f m) small
        (max_prio-list s.priority.size f h) (list-Good s.priority.size f m h))
