-- ===== src/Bencode/Stream/Decimal.antt =====
-- The decimal numbers of BenNode.cpp: what `sprintf` writes, the scan for digits or for an `e` finds
-- again, and `atoi` reads back.
use benliud.Common.{
  ℕ, zero, suc, ◌+◌, ◌-◌, ◌*◌, ◌/◌, ◌%◌, ◌<◌, ◌≡◌, refl, ap, sym, ◌∙◌, Bool, true, false, ◌&&◌,
  List, [], ◌∷◌, ◌++◌, arith, &&-eq-true, ltb, Bool-cases, inl, inr,
}
use benliud.Common.Int.{ℤ, pos, negsuc}
use benliud.Bencode.Stream.{
  decimal, show_nat, show_int, is_digit, span_digits, number, atoi, is_space, skip_spaces, negate,
  atoi_signed, atoi64, to_end,
}

-- A text of digits only.
unfoldable pub all_digits : List ℕ → Bool
all_digits [] = true
all_digits (c ∷ cs) = is_digit c && all_digits cs

number-decimal :
    (fuel n : ℕ) (out : List ℕ) → n < fuel → number 0 (decimal fuel n out) ≡ number n out
unfolding number decimal
number-decimal zero n out h = absurd (omega arith)
number-decimal (suc fuel) n out h = ground (
  arith,
  number-decimal fuel (n / 10) ((48 + n % 10) ∷ out),
  ap (λ k. number k out) {x = 48 + n - 48} {y = n},
  ap (λ k. number k out) {x = (n / 10) * 10 + (48 + n % 10 - 48)} {y = n},
)

all_digits-decimal :
    (fuel n : ℕ) (out : List ℕ) → all_digits out ≡ true → all_digits (decimal fuel n out) ≡ true
unfolding all_digits decimal is_digit
all_digits-decimal zero n out h = h
all_digits-decimal (suc fuel) n out h =
    ground (arith, all_digits-decimal fuel (n / 10) ((48 + n % 10) ∷ out))

number-show_nat : (n : ℕ) → number 0 (show_nat n) ≡ n
unfolding show_nat number
number-show_nat n = number-decimal (suc n) n [] (omega arith)

all_digits_cons :
    (c : ℕ) (cs : List ℕ)
    → all_digits (c ∷ cs) ≡ true
    → (is_digit c ≡ true) × (all_digits cs ≡ true)
unfolding all_digits
all_digits_cons c cs h = (&&-eq-true (is_digit c) (all_digits cs)).0 h

digit-IsDigit : (n : ℕ) → n < 10 → is_digit (48 + n) ≡ true
unfolding is_digit
digit-IsDigit n h = ground arith

-- A printed number starts with a digit.
unfoldable pub StartsWithDigit : List ℕ → Type 0
StartsWithDigit s = (d : ℕ) × (ds : List ℕ) × (s ≡ d ∷ ds) × (is_digit d ≡ true)

decimal-StartsWithDigit :
    (fuel n c : ℕ) (out : List ℕ) → is_digit c ≡ true → StartsWithDigit (decimal fuel n (c ∷ out))
unfolding decimal StartsWithDigit
decimal-StartsWithDigit zero n c out h = (c, out, refl, h)
decimal-StartsWithDigit (suc fuel) n c out h = elim (Bool-cases (ltb n 10)) [
  | inl e ↦ rw e (48 + n, c ∷ out, refl, digit-IsDigit n (ground arith))
  | inr e ↦ rw e (
      decimal-StartsWithDigit fuel (n / 10) (48 + n % 10) (c ∷ out)
        (digit-IsDigit (n % 10) (omega arith)))
]

pub all_digits-show_nat : (n : ℕ) → all_digits (show_nat n) ≡ true
unfolding show_nat all_digits
all_digits-show_nat n = all_digits-decimal (suc n) n [] refl

pub show_nat-StartsWithDigit : (n : ℕ) → StartsWithDigit (show_nat n)
unfolding show_nat decimal StartsWithDigit
show_nat-StartsWithDigit n = elim (Bool-cases (ltb n 10)) [
  | inl e ↦ rw e (48 + n, [], refl, digit-IsDigit n (ground arith))
  | inr e ↦
      rw e
        (decimal-StartsWithDigit n (n / 10) (48 + n % 10) [] (digit-IsDigit (n % 10) (omega arith)))
]

pub span_digits-append :
    (xs : List ℕ) (c : ℕ) (rest : List ℕ)
    → all_digits xs ≡ true
    → is_digit c ≡ false
    → span_digits (xs ++ c ∷ rest) ≡ (xs, c ∷ rest)
unfolding span_digits all_digits
span_digits-append [] c rest h e = rw e refl
span_digits-append (x ∷ xs) c rest h e =
    let (hx, hs) = all_digits_cons x xs h in rw (hx, span_digits-append xs c rest hs e) refl

span_digits_all : (xs : List ℕ) → all_digits xs ≡ true → span_digits xs ≡ (xs, [])
unfolding span_digits all_digits
span_digits_all [] h = refl
span_digits_all (x ∷ xs) h =
    let (hx, hs) = all_digits_cons x xs h in rw (hx, span_digits_all xs hs) refl

-- `atoi` reads back what `sprintf` writes.
pub atoi-show_nat : (n : ℕ) → atoi (show_nat n) ≡ n
unfolding atoi
atoi-show_nat n = rw (span_digits_all (show_nat n) (all_digits-show_nat n)) (number-show_nat n)

pub to_end-digits :
    (xs rest : List ℕ) → all_digits xs ≡ true → to_end (xs ++ 101 ∷ rest) ≡ (xs, 101 ∷ rest)
unfolding to_end all_digits is_digit
to_end-digits [] rest h = refl
to_end-digits (x ∷ xs) rest h =
    let (hx, hs) = all_digits_cons x xs h in rw (to_end-digits xs rest hs) (ground arith)

pub to_end-show_int :
    (z : ℤ) (rest : List ℕ) → to_end (show_int z ++ 101 ∷ rest) ≡ (show_int z, 101 ∷ rest)
unfolding show_int to_end
to_end-show_int (pos n) rest = to_end-digits (show_nat n) rest (all_digits-show_nat n)
to_end-show_int (negsuc n) rest =
    rw (to_end-digits (show_nat (suc n)) rest (all_digits-show_nat (suc n))) refl

atoi64-digit : (d : ℕ) (ds : List ℕ) → is_digit d ≡ true → atoi64 (d ∷ ds) ≡ pos (atoi (d ∷ ds))
unfolding atoi64 skip_spaces atoi_signed is_space is_digit
atoi64-digit d ds h = ground arith

-- So does `_atoi64`, the sign included.
pub atoi64-show_int : (z : ℤ) → atoi64 (show_int z) ≡ z
unfolding show_int StartsWithDigit atoi64 skip_spaces atoi_signed is_space negate
atoi64-show_int (pos n) =
    let (d, ds, p, h) = show_nat-StartsWithDigit n in
    ap atoi64 p ∙ atoi64-digit d ds h ∙ ap (λ s. pos (atoi s)) (sym p) ∙ ap pos (atoi-show_nat n)
atoi64-show_int (negsuc n) = ap negate (atoi-show_nat (suc n))
