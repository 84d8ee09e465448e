-- ===== src/Money/Decimal.antt =====
-- backend/src/lib/money.ts, second half: decimal money strings and stroops. A string is the list
-- of its code points; `decimals` is a natural number.
pub mod RoundTrip
pub mod Reading
pub mod Denotation
use elite_work.Base.{
  ℕ, zero, suc, ◌+◌, ◌-◌, ◌*◌, ◌/◌, ◌%◌, ◌^◌, Bool, true, false, not, ◌&&◌, ◌||◌, List, [], ◌∷◌,
  ◌++◌,
}
use elite_work.Base.Tests.{ltb, leb, ◌==◌, if◌then◌else◌}
use elite_work.Base.Lists.{length}
use elite_work.Base.Int.{ℤ, pos, negsuc, neg, abs, ◌+ℤ◌, ◌*ℤ◌, ltb_ℤ}
use elite_work.Base.Text.{
  Text, is_digit, all_digits, trim, split_on, pad_start, pad_end, show_nat, value_from,
}
use elite_work.Base.Outcome.{Outcome, ok, throw, throw_if, ◌>>=◌, ◌>>◌}

-- The three messages of `MoneyConversionError` that a text or a `bigint` can meet.
pub data ConversionError : Type 0 where
  invalid_decimal too_many_decimals outside_i128 : ConversionError

-- `MONEY_DECIMALS`
abbrev pub money_decimals : ℕ
money_decimals = 7

unfoldable pub i128_max : ℤ
i128_max = pos (2 ^ 127 - 1)

unfoldable pub i128_min : ℤ
i128_min = neg (pos (2 ^ 127))

-- `MAX_SAFE_STROOPS`
unfoldable pub max_safe_stroops : ℤ
max_safe_stroops = pos (2 ^ 53 - 1)

-- The rest of a text behind its leading digits.
unfoldable pub drop_digits : Text → Text
drop_digits [] = []
drop_digits (c ∷ s) = if is_digit c then drop_digits s else c ∷ s

abbrev pub starts_with_digit : Text → Bool
starts_with_digit [] = false
starts_with_digit (c ∷ s) = is_digit c

abbrev pub strip_minus : Text → Text
strip_minus [] = []
strip_minus (c ∷ s) = if c == b'-' then s else c ∷ s

abbrev pub is_negative : Text → Bool
is_negative [] = false
is_negative (c ∷ s) = c == b'-'

-- `(\.\d+)?$`
abbrev pub is_fraction : Text → Bool
is_fraction [] = true
is_fraction (c ∷ s) = c == b'.' && starts_with_digit s && all_digits s

-- `DECIMAL_PATTERN`, which is `^-?\d+(\.\d+)?$`
unfoldable pub is_decimal : Text → Bool
unfolding drop_digits
is_decimal s = starts_with_digit (strip_minus s) && is_fraction (drop_digits (strip_minus s))

unfoldable pub assert_i128_range : ℤ → Outcome ConversionError ℤ
unfolding i128_max i128_min
assert_i128_range stroops =
    if ltb_ℤ i128_max stroops || ltb_ℤ stroops i128_min then throw outside_i128 else ok stroops

-- `const [wholePart, fractionPart = ""] = unsigned.split(".")`
abbrev pub fraction_part : Text × List Text → Text
fraction_part (whole, []) = []
fraction_part (whole, fraction ∷ more) = fraction

-- `parseDecimalToStroops` of a string
unfoldable pub parse_decimal_to_stroops : Text → ℕ → Outcome ConversionError ℤ
unfolding is_decimal trim split_on value_from assert_i128_range
parse_decimal_to_stroops value decimals = do
  let trimmed = trim value
  throw_if (not (is_decimal trimmed)) invalid_decimal
  let negative = is_negative trimmed
  let unsigned = if negative then strip_minus trimmed else trimmed
  let parts = split_on b'.' unsigned
  let fraction = fraction_part parts
  throw_if (ltb decimals (length fraction)) too_many_decimals
  let padded = pad_end decimals fraction
  let magnitude = value_from 0 (parts.0 ++ padded)
  assert_i128_range (if negative then neg (pos magnitude) else pos magnitude)

-- `parseDecimalToStroops` of a `bigint`: whole units
unfoldable pub parse_units_to_stroops : ℤ → ℕ → Outcome ConversionError ℤ
unfolding assert_i128_range
parse_units_to_stroops value decimals = assert_i128_range (value *ℤ pos (10 ^ decimals))

unfoldable pub format_stroops_to_decimal : ℤ → ℕ → Text
unfolding show_nat
format_stroops_to_decimal stroops decimals =
    let divisor = 10 ^ decimals in
    let magnitude = abs stroops in
    let sign : Text = if ltb_ℤ stroops (pos 0) && not (magnitude == 0) then b'-' ∷ [] else [] in
    sign
    ++ (show_nat (magnitude / divisor)
        ++ (b'.' ∷ pad_start decimals (show_nat (magnitude % divisor))))

unfoldable pub is_safe_as_number : ℤ → Bool
unfolding max_safe_stroops
is_safe_as_number stroops = not (ltb_ℤ max_safe_stroops (pos (abs stroops)))

-- The `reduce` of `sumDecimalStrings`.
unfoldable pub sum_from : ℤ → List Text → ℕ → Outcome ConversionError ℤ
unfolding parse_decimal_to_stroops
sum_from acc [] decimals = ok acc
sum_from acc (value ∷ values) decimals =
    parse_decimal_to_stroops value decimals >>= λ stroops. sum_from (acc +ℤ stroops) values decimals

unfoldable pub sum_decimal_strings : List Text → ℕ → Outcome ConversionError Text
unfolding sum_from assert_i128_range format_stroops_to_decimal
sum_decimal_strings values decimals = do
  total ← sum_from (pos 0) values decimals
  stroops ← assert_i128_range total
  ok (format_stroops_to_decimal stroops decimals)

-- `normalizeDecimalString` of a string
unfoldable pub normalize_decimal_string : Text → ℕ → Outcome ConversionError Text
unfolding parse_decimal_to_stroops format_stroops_to_decimal
normalize_decimal_string value decimals = do
  stroops ← parse_decimal_to_stroops value decimals
  ok (format_stroops_to_decimal stroops decimals)
