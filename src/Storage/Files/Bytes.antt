-- ===== src/Storage/Files/Bytes.antt =====
-- Bytes written over others and read back: the laws of `overwrite`, `take` and `drop` that the files
-- of benliud_bt/src/BTStorage.cpp rest on.
use benliud.Common.{
  ℕ, zero, suc, ◌+◌, ◌≤◌, ◌≡◌, refl, ap, ◌∙◌, sym, arith, List, [], ◌∷◌, ◌++◌, length, take, drop,
}
use benliud.Storage.Files.{overwrite}

pub length-overwrite :
    (n : ℕ) (bs cs : List ℕ) → n + length bs ≤ length cs → length (overwrite n bs cs) ≡ length cs
unfolding overwrite
length-overwrite zero [] cs h = refl
length-overwrite zero (b ∷ bs) [] h = absurd (omega arith)
length-overwrite zero (b ∷ bs) (c ∷ cs) h = ap suc (length-overwrite zero bs cs (omega arith))
length-overwrite (suc n) bs [] h = absurd (omega arith)
length-overwrite (suc n) bs (c ∷ cs) h = ap suc (length-overwrite n bs cs (omega arith))

-- A write into the first of two parts, and into the second.
pub overwrite-append_left :
    (n : ℕ) (bs cs ds : List ℕ)
    → n + length bs ≤ length cs
    → overwrite n bs (cs ++ ds) ≡ overwrite n bs cs ++ ds
unfolding overwrite
overwrite-append_left zero [] cs ds h = refl
overwrite-append_left zero (b ∷ bs) [] ds h = absurd (omega arith)
overwrite-append_left zero (b ∷ bs) (c ∷ cs) ds h =
    ap (◌∷◌ b) (overwrite-append_left zero bs cs ds (omega arith))
overwrite-append_left (suc n) bs [] ds h = absurd (omega arith)
overwrite-append_left (suc n) bs (c ∷ cs) ds h =
    ap (◌∷◌ c) (overwrite-append_left n bs cs ds (omega arith))

pub overwrite-append_right :
    (n : ℕ) (bs cs ds : List ℕ) → overwrite (length cs + n) bs (cs ++ ds) ≡ cs ++ overwrite n bs ds
unfolding overwrite
overwrite-append_right n bs [] ds = ap (λ k. overwrite k bs ds) (omega arith)
overwrite-append_right n bs (c ∷ cs) ds =
    ap (λ k. overwrite k bs (c ∷ (cs ++ ds))) {x = suc (length cs) + n} {y = suc (length cs + n)}
      (omega arith)
    ∙ ap (◌∷◌ c) (overwrite-append_right n bs cs ds)

-- A write in two parts.
pub overwrite_twice :
    (n k : ℕ) (bs cs : List ℕ)
    → n + length bs ≤ length cs
    → k ≤ length bs
    → overwrite (n + k) (drop k bs) (overwrite n (take k bs) cs) ≡ overwrite n bs cs
unfolding overwrite
overwrite_twice zero zero bs cs h l = ap (λ i. overwrite i bs cs) {x = 0 + 0} {y = 0} (omega arith)
overwrite_twice zero (suc k) [] cs h l = absurd (omega arith)
overwrite_twice zero (suc k) (b ∷ bs) [] h l = absurd (omega arith)
overwrite_twice zero (suc k) (b ∷ bs) (c ∷ cs) h l =
    ap (λ i. overwrite i (drop k bs) (b ∷ overwrite zero (take k bs) cs)) {x = zero + suc k}
      {y = suc (zero + k)} (omega arith)
    ∙ ap (◌∷◌ b) (overwrite_twice zero k bs cs (omega arith) (omega arith))
overwrite_twice (suc n) k bs [] h l = absurd (omega arith)
overwrite_twice (suc n) k bs (c ∷ cs) h l =
    ap (λ i. overwrite i (drop k bs) (c ∷ overwrite n (take k bs) cs)) {x = suc n + k}
      {y = suc (n + k)} (omega arith)
    ∙ ap (◌∷◌ c) (overwrite_twice n k bs cs (omega arith) l)

-- What was written is read back.
pub take-drop-overwrite :
    (n : ℕ) (bs cs : List ℕ)
    → n + length bs ≤ length cs
    → take (length bs) (drop n (overwrite n bs cs)) ≡ bs
unfolding overwrite
take-drop-overwrite zero [] cs h = refl
take-drop-overwrite zero (b ∷ bs) [] h = absurd (omega arith)
take-drop-overwrite zero (b ∷ bs) (c ∷ cs) h =
    ap (◌∷◌ b) (take-drop-overwrite zero bs cs (omega arith))
take-drop-overwrite (suc n) bs [] h = absurd (omega arith)
take-drop-overwrite (suc n) bs (c ∷ cs) h = take-drop-overwrite n bs cs (omega arith)

pub take-drop-append_left :
    (n k : ℕ) (cs ds : List ℕ) → n + k ≤ length cs → take k (drop n (cs ++ ds)) ≡ take k (drop n cs)
take-drop-append_left zero zero cs ds h = refl
take-drop-append_left zero (suc k) [] ds h = absurd (omega arith)
take-drop-append_left zero (suc k) (c ∷ cs) ds h =
    ap (◌∷◌ c) (take-drop-append_left zero k cs ds (omega arith))
take-drop-append_left (suc n) k [] ds h = absurd (omega arith)
take-drop-append_left (suc n) k (c ∷ cs) ds h = take-drop-append_left n k cs ds (omega arith)

pub drop-append_right : (n : ℕ) (cs ds : List ℕ) → drop (length cs + n) (cs ++ ds) ≡ drop n ds
drop-append_right n [] ds = ap (λ k. drop k ds) (omega arith)
drop-append_right n (c ∷ cs) ds =
    ap (λ k. drop k (c ∷ (cs ++ ds))) {x = suc (length cs) + n} {y = suc (length cs + n)}
      (omega arith)
    ∙ drop-append_right n cs ds

take_nil : (m : ℕ) → take {A = ℕ} m [] ≡ []
take_nil zero = refl
take_nil (suc m) = refl

pub take_split : (k m : ℕ) (xs : List ℕ) → take (k + m) xs ≡ take k xs ++ take m (drop k xs)
take_split zero m xs = ap (λ n. take n xs) (omega arith)
take_split (suc k) m [] =
    ap (λ n. take n []) {x = suc k + m} {y = suc (k + m)} (omega arith) ∙ sym (take_nil m)
take_split (suc k) m (x ∷ xs) =
    ap (λ n. take n (x ∷ xs)) {x = suc k + m} {y = suc (k + m)} (omega arith)
    ∙ ap (◌∷◌ x) (take_split k m xs)
