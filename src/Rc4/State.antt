-- ===== src/Rc4/State.antt =====
-- The state of MSE_Rc4encryptor.cpp: the table stays a permutation of the 256 byte values, and no
-- access leaves it.
use benliud.Common.{
  ℕ, zero, suc, ◌+◌, ◌≤◌, ◌<◌, ◌≡◌, refl, ap, ◌∙◌, arith, List, [], ◌∷◌, length, get_or, set, All,
  All-set, All-get_or, length-set, get_or-set_self, get_or-set_ne, leb, ltb, ◌==◌, if◌then◌else◌,
  bit, ◌&&◌,
}
use benliud.Common.Search.{count}
use benliud.Rc4.{Rc4, swap, count_up, mix, new, advance, output, skip, process_byte, process}

-- How often a value stands in the table.
abbrev pub times : ℕ → List ℕ → ℕ
times v = count (λ x. x == v)

-- 256 bytes, each value once; the counters index the table.
pub record IsTable (s : List ℕ) : Type 0 where
  pub sized : length s ≡ 256
  pub in_range : All (λ b. b < 256) s
  pub once : (v : ℕ) → v < 256 → times v s ≡ 1

pub record IsValid (c : Rc4) : Type 0 where
  pub table : IsTable c.s
  pub i_in : c.i < 256
  pub j_in : c.j < 256

times-set :
    (v : ℕ) (xs : List ℕ) (i y : ℕ)
    → i < length xs
    → times v (set xs i y) + bit (get_or xs i 0 == v) ≡ times v xs + bit (y == v)
unfolding count
times-set v [] i y h = absurd (omega arith)
times-set v (x ∷ xs) zero y h = omega arith
times-set v (x ∷ xs) (suc i) y h = omega (arith, times-set v xs i y (omega arith))

times-swap :
    (v : ℕ) (s : List ℕ) (a b : ℕ) → a < length s → b < length s → times v (swap s a b) ≡ times v s
unfolding swap
times-swap v s a b ha hb = ground (
  arith,
  times-set v s a (get_or s b 0) ha,
  times-set v (set s a (get_or s b 0)) b (get_or s a 0) (rw length-set hb),
  get_or-set_self s a (get_or s b 0) 0 ha,
  get_or-set_ne s a b (get_or s b 0) 0,
  ap (λ k. get_or (set s a (get_or s b 0)) k 0) {x = a} {y = b},
)

swap-IsTable : (s : List ℕ) (a b : ℕ) → a < 256 → b < 256 → IsTable s → IsTable (swap s a b)
unfolding swap
swap-IsTable s a b ha hb t = record {
  sized = length-set _ b _ ∙ length-set s a _ ∙ t.sized;
  in_range =
      All-set (λ b. b < 256) _ b _
        (All-set (λ b. b < 256) s a _ t.in_range
          (All-get_or (λ b. b < 256) s b 0 t.in_range (omega arith)))
        (All-get_or (λ b. b < 256) s a 0 t.in_range (omega arith));
  once = λ v h. times-swap v s a b (omega (arith, t.sized)) (omega (arith, t.sized)) ∙ t.once v h;
}

count_up-lem :
    (n t : ℕ)
    → (length (count_up n t) ≡ n)
      × ((v : ℕ) → times v (count_up n t) ≡ (if leb t v && ltb v (t + n) then 1 else 0))
unfolding count_up count
count_up-lem zero t = (refl, λ v. ground arith)
count_up-lem (suc n) t =
    let rest = count_up-lem n (t + 1) in (omega (arith, rest.0), λ v. ground (arith, rest.1 v))

count_up-in_range : (n t : ℕ) → t + n ≤ 256 → All (λ b. b < 256) (count_up n t)
unfolding count_up
count_up-in_range zero t h = tt
count_up-in_range (suc n) t h = (omega arith, count_up-in_range n (t + 1) (omega arith))

count_up-IsTable : IsTable (count_up 256 0)
count_up-IsTable = record {
  sized = (count_up-lem 256 0).0;
  in_range = count_up-in_range 256 0 (omega arith);
  once = λ v h. ground (arith, (count_up-lem 256 0).1 v);
}

mix-IsTable :
    (n u : ℕ) (key : List ℕ) (j : ℕ) (s : List ℕ)
    → u + n ≤ 256
    → IsTable s
    → IsTable (mix n u key j s)
unfolding mix
mix-IsTable zero u key j s h t = t
mix-IsTable (suc n) u key j s h t =
    mix-IsTable n (u + 1) key _ _ (omega arith) (swap-IsTable s u _ (omega arith) (omega arith) t)

pub new-IsValid : (key : List ℕ) → IsValid (new key)
unfolding new
new-IsValid key = record {
  table = mix-IsTable 256 0 key 0 (count_up 256 0) (omega arith) count_up-IsTable;
  i_in = omega arith;
  j_in = omega arith;
}

pub advance-IsValid : (c : Rc4) → IsValid c → IsValid (advance c)
unfolding advance
advance-IsValid c v = record {
  table = swap-IsTable c.s _ _ (omega arith) (omega arith) v.table;
  i_in = omega arith;
  j_in = omega arith;
}

pub skip-IsValid : (n : ℕ) (c : Rc4) → IsValid c → IsValid (skip n c)
unfolding skip
skip-IsValid zero c v = v
skip-IsValid (suc n) c v = skip-IsValid n (advance c) (advance-IsValid c v)

pub output-lt : (c : Rc4) → IsValid c → output c < 256
unfolding output
output-lt c v = All-get_or (λ b. b < 256) c.s _ 0 v.table.in_range (omega arith)

pub process-IsValid : (c : Rc4) (bs : List ℕ) → IsValid c → IsValid (process c bs).0
unfolding process process_byte
process-IsValid c [] v = v
process-IsValid c (b ∷ bs) v = process-IsValid (advance c) bs (advance-IsValid c v)

-- From the key schedule on, whatever bytes are processed, the table holds each byte value exactly
-- once and the counters index it.
process-new-IsValid : (key bs : List ℕ) → IsValid (process (new key) bs).0
process-new-IsValid key bs = process-IsValid (new key) bs (new-IsValid key)
