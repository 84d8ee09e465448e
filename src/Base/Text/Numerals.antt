-- ===== src/Base/Text/Numerals.antt =====
-- Printing a number and reading it back.
use elite_work.Base.{
  ℕ, zero, suc, ◌+◌, ◌-◌, ◌*◌, ◌/◌, ◌%◌, ◌^◌, ◌≤◌, ◌<◌, ◌≡◌, refl, ap, sym, ◌∙◌, Option, true, [],
  ◌∷◌, ◌++◌, some, arith,
}
use native.Mathlib.Nat.{pow-suc}
use elite_work.Base.Lists.{length, All}
use elite_work.Base.Int.{ℤ, pos, negsuc, neg}
use elite_work.Base.Text.{Text, show_from, show_nat, show_int, value_from, all_digits, big_int}

abbrev pub IsDigit : ℕ → Type 0
IsDigit c = (b'0' ≤ c) × (c ≤ b'9')

pub all_digits_of_All : (s : Text) → All IsDigit s → all_digits s ≡ true
all_digits_of_All [] h = refl
all_digits_of_All (c ∷ s) h = ground (arith, all_digits_of_All s h.1)

pub value_from-append : (n : ℕ) (s t : Text) → value_from n (s ++ t) ≡ value_from (value_from n s) t
unfolding value_from
value_from-append n [] t = refl
value_from-append n (c ∷ s) t = value_from-append (n * 10 + (c - b'0')) s t

-- Enough fuel: the number itself.
show_from-IsDigit :
    (f n : ℕ) (out : Text) → n < f → All IsDigit out → All IsDigit (show_from f n out)
unfolding show_from
show_from-IsDigit zero n out h k = absurd (omega arith)
show_from-IsDigit (suc f) n out h k =
    ground (arith, show_from-IsDigit f (n / 10) ((b'0' + n % 10) ∷ out))

show_from-ne-nil : (f n : ℕ) (out : Text) → n < f → 0 < length (show_from f n out)
unfolding show_from
show_from-ne-nil zero n out h = absurd (omega arith)
show_from-ne-nil (suc f) n out h =
    ground (arith, show_from-ne-nil f (n / 10) ((b'0' + n % 10) ∷ out))

last_digit : (n : ℕ) → n / 10 * 10 + (b'0' + n % 10 - b'0') ≡ n
last_digit n = omega arith

only_digit : (n : ℕ) → 0 * 10 + (b'0' + n - b'0') ≡ n
only_digit n = omega arith

value_from-show_from :
    (f n : ℕ) (out : Text) → n < f → value_from 0 (show_from f n out) ≡ value_from n out
unfolding show_from value_from
value_from-show_from zero n out h = absurd (omega arith)
value_from-show_from (suc f) n out h = ground (
  arith,
  value_from-show_from f (n / 10) ((b'0' + n % 10) ∷ out),
  ap (λ (m : ℕ). value_from m out) (last_digit n),
  ap (λ (m : ℕ). value_from m out) (only_digit n),
)

-- A number below a power of ten has no more digits than its exponent.
length-show_from :
    (f n k : ℕ) (out : Text)
    → n < f
    → n < 10 ^ suc k
    → length (show_from f n out) ≤ suc k + length out
unfolding show_from
length-show_from zero n k out h b = absurd (omega arith)
length-show_from (suc f) n zero out h b = ground arith
length-show_from (suc f) n (suc k) out h b =
    ground (arith, length-show_from f (n / 10) k ((b'0' + n % 10) ∷ out), pow-suc 10 (suc k))

pub show_nat-IsDigit : (n : ℕ) → All IsDigit (show_nat n)
unfolding show_nat
show_nat-IsDigit n = show_from-IsDigit (suc n) n [] (omega arith) tt

pub show_nat-ne-nil : (n : ℕ) → 0 < length (show_nat n)
unfolding show_nat
show_nat-ne-nil n = show_from-ne-nil (suc n) n [] (omega arith)

pub value-show_nat : (n : ℕ) → value_from 0 (show_nat n) ≡ n
unfolding show_nat value_from
value-show_nat n = value_from-show_from (suc n) n [] (omega arith)

pub length-show_nat : (n k : ℕ) → n < 10 ^ suc k → length (show_nat n) ≤ suc k
unfolding show_nat
length-show_nat n k h = omega (arith, length-show_from (suc n) n k [])

-- Digits in front of any text are read as digits.
pub big_int_of_digits :
    (s : Text) → All IsDigit s → 0 < length s → big_int s ≡ some (pos (value_from 0 s))
unfolding big_int
big_int_of_digits [] h k = refl
big_int_of_digits (c ∷ s) h k = ground (arith, all_digits_of_All s h.1)

big_int_of_minus :
    (s : Text)
    → All IsDigit s
    → 0 < length s
    → big_int (b'-' ∷ s) ≡ some (neg (pos (value_from 0 s)))
unfolding big_int
big_int_of_minus s h k = ground (arith, all_digits_of_All s h)

-- Every integer is read back from its print.
pub big_int-show_int : (a : ℤ) → big_int (show_int a) ≡ some a
unfolding show_int
big_int-show_int (pos n) =
    rw (big_int_of_digits (show_nat n) (show_nat-IsDigit n) (show_nat-ne-nil n), value-show_nat n)
      refl
big_int-show_int (negsuc n) =
    rw
      (
        big_int_of_minus (show_nat (suc n)) (show_nat-IsDigit (suc n)) (show_nat-ne-nil (suc n)),
        value-show_nat (suc n),
      )
      (ground arith)

pub show_int-injective : (a b : ℤ) → show_int a ≡ show_int b → a ≡ b
show_int-injective a b e =
    let same : ◌≡◌ {A = Option ℤ} (some a) (some b) =
      sym (big_int-show_int a) ∙ ap big_int e ∙ big_int-show_int b in
    cc
