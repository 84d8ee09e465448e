-- ===== src/Money/Decimal/Reading.antt =====
-- What `parseDecimalToStroops` accepts and the amount it returns; normalising and summing.
use elite_work.Base.{ℕ, ◌≤◌, ◌<◌, ◌≡◌, refl, sym, ap, ◌∙◌, true, not, List, [], ◌∷◌, ◌++◌, arith}
use elite_work.Base.Tests.{ltb, if◌then◌else◌}
use elite_work.Base.Lists.{length, All}
use elite_work.Base.Int.{ℤ, pos, neg, ◌+ℤ◌, ◌≤ℤ◌, int_laws}
use elite_work.Base.Text.{Text, trim, split_on, pad_end, value_from}
use elite_work.Base.Outcome.{ok, throw, >>=-eq-ok}
use elite_work.Money.Decimal.{
  invalid_decimal, too_many_decimals, i128_max, i128_min, fraction_part, strip_minus, is_negative,
  is_decimal, assert_i128_range, parse_decimal_to_stroops, format_stroops_to_decimal, sum_from,
  sum_decimal_strings, normalize_decimal_string,
}
use elite_work.Money.Decimal.RoundTrip.{parse-format, parse-format_in_range}

abbrev pub InRange : ℤ → Type 0
InRange a = (a ≤ℤ i128_max) × (i128_min ≤ℤ a)

assert_i128_range_idem : (a b : ℤ) → assert_i128_range a ≡ ok b → (a ≡ b)
unfolding assert_i128_range
assert_i128_range_idem a b h = ground arith

-- The number of stroops that the whole part and the padded fraction spell.
abbrev pub spelled : Text → ℕ → ℕ
spelled s k =
    let parts = split_on b'.' (strip_minus s) in
    value_from 0 (parts.0 ++ pad_end k (fraction_part parts))

abbrev pub with_sign : Text → ℕ → ℤ
with_sign s m = if is_negative s then neg (pos m) else pos m

assert_i128_range_ok : (a : ℤ) → InRange a → assert_i128_range a ≡ ok a
unfolding assert_i128_range
assert_i128_range_ok a (lo, hi) = ground arith

-- What a successful reading has passed, and its result.
pub record Accepted (t : Text) (k : ℕ) (a : ℤ) : Type 0 where
  pub decimal : is_decimal (trim t) ≡ true
  pub fits : length (fraction_part (split_on b'.' (strip_minus (trim t)))) ≤ k
  pub amount : a ≡ with_sign (trim t) (spelled (trim t) k)
  pub in_range : assert_i128_range a ≡ ok a

unsigned_lem : (s : Text) → (if is_negative s then strip_minus s else s) ≡ strip_minus s
unsigned_lem [] = refl
unsigned_lem (c ∷ s) = ground arith

-- The reading, with the sign stripped once.
parse_steps :
    (t : Text) (k : ℕ)
    → parse_decimal_to_stroops t k ≡ (
        if not (is_decimal (trim t))
        then throw invalid_decimal
        else if ltb k (length (fraction_part (split_on b'.' (strip_minus (trim t)))))
        then throw too_many_decimals
        else assert_i128_range (with_sign (trim t) (spelled (trim t) k)))
unfolding parse_decimal_to_stroops
parse_steps t k = rw (unsigned_lem (trim t)) (ground arith)

pub parse-Accepted :
    (t : Text) (k : ℕ) (a : ℤ) → parse_decimal_to_stroops t k ≡ ok a → Accepted t k a
parse-Accepted t k a h =
    let steps = sym (parse_steps t k) ∙ h in
    let same = assert_i128_range_idem (with_sign (trim t) (spelled (trim t) k)) a in
    record {
      decimal = ground (arith, steps);
      fits = ground (arith, steps);
      amount = ground (arith, steps, same);
      in_range = ground (arith, steps, same);
    }

-- At a positive number of decimals, a normalised string is its own normal form.
normalize_idempotent :
    (t u : Text) (k : ℕ)
    → 0 < k
    → normalize_decimal_string t k ≡ ok u
    → normalize_decimal_string u k ≡ ok u
unfolding normalize_decimal_string
normalize_idempotent t u k h e =
    let (a, parsed, same) =
      >>=-eq-ok (parse_decimal_to_stroops t k) (λ a. ok (format_stroops_to_decimal a k)) e in
    let again = parse-format a k h ∙ (parse-Accepted t k a parsed).in_range in
    ground (arith, again, parsed, same)

-- The exact sum of a list of amounts.
abbrev pub total : List ℤ → ℤ
total [] = pos 0
total (a ∷ xs) = a +ℤ total xs

abbrev pub format_all : ℕ → List ℤ → List Text
format_all k [] = []
format_all k (a ∷ xs) = format_stroops_to_decimal a k ∷ format_all k xs

sum_from-format :
    (xs : List ℤ) (acc : ℤ) (k : ℕ)
    → 0 < k
    → All InRange xs
    → sum_from acc (format_all k xs) k ≡ ok (acc +ℤ total xs)
unfolding sum_from
sum_from-format [] acc k h r = ap ok (omega int_laws)
sum_from-format (a ∷ xs) acc k h (r, rs) =
    rw (parse-format_in_range a k h r.0 r.1)
      (sum_from-format xs (acc +ℤ a) k h rs ∙ ap ok (omega int_laws))

-- At a positive number of decimals, the sum of formatted amounts is the format of their exact sum,
-- as long as the amounts and the sum are in range.
sum_decimal_strings-format :
    (xs : List ℤ) (k : ℕ)
    → 0 < k
    → All InRange xs
    → InRange (total xs)
    → sum_decimal_strings (format_all k xs) k ≡ ok (format_stroops_to_decimal (total xs) k)
unfolding sum_decimal_strings
sum_decimal_strings-format xs k h r t =
    let zero_left : pos 0 +ℤ total xs ≡ total xs = omega int_laws in
    rw (sum_from-format xs (pos 0) k h r, zero_left, assert_i128_range_ok (total xs) t) refl
