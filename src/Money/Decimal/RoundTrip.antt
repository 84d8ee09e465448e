-- ===== src/Money/Decimal/RoundTrip.antt =====
-- A stroop amount survives being written as a decimal string and read back.
use native.Mathlib.Nat.{one-le-pow, pow-suc, mod-lt, div-add-mod'}
use mathlib.Core.List.{reverse, reverse-cons, reverse-reverse}
use elite_work.Base.{
  ℕ, zero, suc, ◌+◌, ◌-◌, ◌*◌, ◌/◌, ◌%◌, ◌^◌, ◌<◌, ◌≡◌, refl, sym, ◌∙◌, true, false, [], ◌∷◌, ◌++◌,
  append-nil, arith,
}
use elite_work.Base.Lists.{length, replicate, All, All-append, length-append, length-replicate}
use elite_work.Base.Int.{ℤ, pos, negsuc, abs, ◌≤ℤ◌}
use elite_work.Base.Text.{
  Text, is_space, trim, trim_start, split_on, pad_start, pad_end, show_nat, value_from,
}
use elite_work.Base.Text.Numerals.{
  IsDigit, all_digits_of_All, value_from-append, show_nat-IsDigit, show_nat-ne-nil, value-show_nat,
  length-show_nat,
}
use elite_work.Base.Outcome.{ok}
use elite_work.Money.Decimal.{
  i128_max, i128_min, drop_digits, is_decimal, assert_i128_range, parse_decimal_to_stroops,
  format_stroops_to_decimal,
}

abbrev NotSpace : ℕ → Type 0
NotSpace c = is_space c ≡ false

IsDigit-NotSpace : (s : Text) → All IsDigit s → All NotSpace s
IsDigit-NotSpace [] h = tt
IsDigit-NotSpace (c ∷ s) h = (ground arith, IsDigit-NotSpace s h.1)

trim_start_lem : (s : Text) → All NotSpace s → trim_start s ≡ s
unfolding trim_start
trim_start_lem [] h = refl
trim_start_lem (c ∷ s) h = rw (h.0) refl

All-reverse : (P : ℕ → Type 0) (s : Text) → All P s → All P (reverse s)
All-reverse P [] h = tt
All-reverse P (c ∷ s) h =
    rw (reverse-cons c s) (All-append P (reverse s) (c ∷ []) (All-reverse P s h.1) (h.0, tt))

trim_lem : (s : Text) → All NotSpace s → trim s ≡ s
unfolding trim
trim_lem s h =
    rw (trim_start_lem s h, trim_start_lem (reverse s) (All-reverse NotSpace s h))
      (reverse-reverse s)

pub drop_digits-append : (w t : Text) → All IsDigit w → drop_digits (w ++ (b'.' ∷ t)) ≡ b'.' ∷ t
unfolding drop_digits
drop_digits-append [] t h = refl
drop_digits-append (c ∷ w) t h = ground (arith, drop_digits-append w t h.1)

pub split_on-digits : (w : Text) → All IsDigit w → split_on b'.' w ≡ (w, [])
unfolding split_on
split_on-digits [] h = refl
split_on-digits (c ∷ w) h = ground (arith, split_on-digits w h.1)

pub split_on-number :
    (w f : Text) → All IsDigit w → All IsDigit f → split_on b'.' (w ++ (b'.' ∷ f)) ≡ (w, f ∷ [])
unfolding split_on
split_on-number [] f h k = rw (split_on-digits f k) refl
split_on-number (c ∷ w) f h k = ground (arith, split_on-number w f h.1 k)

-- The number that a whole part and a fraction of `k` digits spell.
abbrev pub number : Text → Text → Text
number w f = w ++ (b'.' ∷ f)

is_decimal-number :
    (w f : Text)
    → All IsDigit w
    → All IsDigit f
    → 0 < length w
    → 0 < length f
    → (is_decimal (number w f) ≡ true) × (is_decimal (b'-' ∷ number w f) ≡ true)
unfolding is_decimal
is_decimal-number [] f h k nw nf = absurd (omega arith)
is_decimal-number (c ∷ w) [] h k nw nf = absurd (omega arith)
is_decimal-number (c ∷ w) (b ∷ f) h k nw nf =
    ground (arith, drop_digits-append (c ∷ w) (b ∷ f) h, all_digits_of_All (b ∷ f) k)

abbrev signed : ℤ → Text → Text
signed (pos n) s = s
signed (negsuc n) s = b'-' ∷ s

NotSpace-number : (w f : Text) → All IsDigit w → All IsDigit f → All NotSpace (number w f)
NotSpace-number w f h k =
    All-append NotSpace w (b'.' ∷ f) (IsDigit-NotSpace w h) (refl, IsDigit-NotSpace f k)

pad_end_full : (k : ℕ) (f : Text) → length f ≡ k → pad_end k f ≡ f
pad_end_full k f e = let none_left : k - length f ≡ 0 = omega arith in rw none_left (append-nil f)

-- A sign, digits, a point and as many digits as there are decimals: read as one number.
parse-number :
    (a : ℤ) (w f : Text) (k : ℕ)
    → All IsDigit w
    → All IsDigit f
    → 0 < length w
    → length f ≡ k
    → 0 < k
    → value_from 0 (w ++ f) ≡ abs a
    → parse_decimal_to_stroops (signed a (number w f)) k ≡ assert_i128_range a
unfolding parse_decimal_to_stroops
parse-number a [] f k dw df nw nf pk e = absurd (omega arith)
parse-number (pos n) (c ∷ w) f k dw df nw nf pk e =
    rw (trim_lem (number (c ∷ w) f) (NotSpace-number (c ∷ w) f dw df)) (
      ground (
        arith,
        (is_decimal-number (c ∷ w) f dw df nw (omega arith)).0,
        split_on-number (c ∷ w) f dw df,
        pad_end_full k f nf,
      ))
parse-number (negsuc n) (c ∷ w) f k dw df nw nf pk e =
    rw (trim_lem (b'-' ∷ number (c ∷ w) f) (refl, NotSpace-number (c ∷ w) f dw df)) (
      ground (
        arith,
        (is_decimal-number (c ∷ w) f dw df nw (omega arith)).1,
        split_on-number (c ∷ w) f dw df,
        pad_end_full k f nf,
      ))

value_from-zeros : (m : ℕ) (s : Text) → value_from 0 (replicate m b'0' ++ s) ≡ value_from 0 s
unfolding value_from
value_from-zeros zero s = refl
value_from-zeros (suc m) s = value_from-zeros m s

zeros-IsDigit : (m : ℕ) → All IsDigit (replicate m b'0')
zeros-IsDigit zero = tt
zeros-IsDigit (suc m) = (omega arith, zeros-IsDigit m)

-- Reading on behind `n` shifts it by the digits read.
pub value_from_shift : (s : Text) (n : ℕ) → value_from n s ≡ n * 10 ^ length s + value_from 0 s
unfolding value_from
value_from_shift [] n = omega arith
value_from_shift (c ∷ s) n =
    let x = c - b'0' in
    value_from_shift s (n * 10 + x)
    ∙ sym (rw (pow-suc 10 (length s), value_from_shift s (0 * 10 + x)) (omega arith))

-- The fraction of an amount, padded to all its decimals.
fraction_lem :
    (n j : ℕ)
    → n < 10 ^ suc j
    → let f = pad_start (suc j) (show_nat n) in
      All IsDigit f × (length f ≡ suc j) × (value_from 0 f ≡ n)
fraction_lem n j h = (
  All-append IsDigit zeros (show_nat n) (zeros-IsDigit _) (show_nat-IsDigit n),
  omega (
    arith,
    length-append {0} zeros (show_nat n),
    length-replicate {0} {A = ℕ} (suc j - length (show_nat n)) b'0',
    length-show_nat n j h,
  ),
  value_from-zeros (suc j - length (show_nat n)) (show_nat n) ∙ value-show_nat n,
)
  where
    zeros : Text
    zeros = replicate (suc j - length (show_nat n)) b'0'

format_lem :
    (a : ℤ) (k : ℕ)
    → format_stroops_to_decimal a k
      ≡ signed a (number (show_nat (abs a / 10 ^ k)) (pad_start k (show_nat (abs a % 10 ^ k))))
unfolding format_stroops_to_decimal
format_lem (pos n) k = ground arith
format_lem (negsuc n) k = ground arith

-- Reading back a formatted amount gives the range check of that amount.
pub parse-format :
    (a : ℤ) (k : ℕ)
    → 0 < k
    → parse_decimal_to_stroops (format_stroops_to_decimal a k) k ≡ assert_i128_range a
parse-format a zero h = elim h [ ]
parse-format a (suc j) h =
    let unit = 10 ^ suc j in
    let (digits, full, exact) =
      fraction_lem (abs a % unit) j (mod-lt _ (one-le-pow (suc j) 10 (omega arith))) in
    let w = show_nat (abs a / unit) in
    let f = pad_start (suc j) (show_nat (abs a % unit)) in
    rw (format_lem a (suc j)) (
      parse-number a w f (suc j) (show_nat-IsDigit _) digits (show_nat-ne-nil _) full h (
        value_from-append 0 w f
        ∙ value_from_shift f _
        ∙ rw (full, exact, value-show_nat (abs a / unit)) (div-add-mod' (abs a) unit)))

-- Every amount in the range of `i128` is read back exactly from its decimal string, at any positive
-- number of decimals.
pub parse-format_in_range :
    (a : ℤ) (k : ℕ)
    → 0 < k
    → a ≤ℤ i128_max
    → i128_min ≤ℤ a
    → parse_decimal_to_stroops (format_stroops_to_decimal a k) k ≡ ok a
unfolding assert_i128_range
parse-format_in_range a k h lo hi = rw (parse-format a k h) (ground arith)
