-- ===== src/Base/Text.antt =====
-- Text as its list of code points, with what the program uses of JavaScript's strings: `trim`,
-- `split`, `padStart`, `padEnd`, and the decimal print and reading of a `bigint`.
pub mod Numerals
use Prim.Native.Char.{code}
use Prim.Native.String
use elite_work.Base.{
  ℕ, zero, suc, ◌+◌, ◌-◌, ◌*◌, ◌/◌, ◌%◌, Bool, true, false, ◌&&◌, ◌||◌, List, [], ◌∷◌, ◌++◌,
  reverse, Option, none, some,
}
use elite_work.Base.Tests.{ltb, leb, ◌==◌, if◌then◌else◌}
use elite_work.Base.Lists.{length, replicate}
use elite_work.Base.Int.{ℤ, pos, negsuc, neg}

abbrev pub Text : Type 0
Text = List ℕ

-- A literal of the source, as a text.
abbrev pub codes : String.String → Text
codes String.[] = []
codes (String.◌∷◌ c s) = code c ∷ codes s

-- The white space that `trim` strips.
abbrev pub is_space : ℕ → Bool
is_space c =
    (leb 9 c && leb c 13)
    || c == 32
    || c == 160
    || c == 0x1680
    || (leb 0x2000 c && leb c 0x200a)
    || c == 0x2028
    || c == 0x2029
    || c == 0x202f
    || c == 0x205f
    || c == 0x3000
    || c == 0xfeff

unfoldable pub trim_start : Text → Text
trim_start [] = []
trim_start (c ∷ s) = if is_space c then trim_start s else c ∷ s

-- `s.trim()`
unfoldable pub trim : Text → Text
unfolding trim_start
trim s = reverse (trim_start (reverse (trim_start s)))

-- `\d`
abbrev pub is_digit : ℕ → Bool
is_digit c = leb b'0' c && leb c b'9'

-- `s.split(c)`, for one character `c`: the piece in front of the first `c`, and those behind it.
unfoldable pub split_on : ℕ → Text → Text × List Text
split_on c [] = ([], [])
split_on c (x ∷ s) =
    let (piece, more) = split_on c s in if x == c then ([], piece ∷ more) else (x ∷ piece, more)

-- `s.padStart(n, "0")` and `s.padEnd(n, "0")`
abbrev pub pad_start : ℕ → Text → Text
pad_start n s = replicate (n - length s) b'0' ++ s

abbrev pub pad_end : ℕ → Text → Text
pad_end n s = s ++ replicate (n - length s) b'0'

unfoldable pub show_from : (fuel n : ℕ) → Text → Text
show_from zero n out = out
show_from (suc fuel) n out =
    let longer = show_from fuel (n / 10) ((b'0' + n % 10) ∷ out) in
    if ltb n 10 then (b'0' + n) ∷ out else longer

-- The decimal digits of a number; each round needs one unit of fuel.
unfoldable pub show_nat : ℕ → Text
unfolding show_from
show_nat n = show_from (suc n) n []

-- `a.toString()`
unfoldable pub show_int : ℤ → Text
unfolding show_nat
show_int (pos n) = show_nat n
show_int (negsuc n) = b'-' ∷ show_nat (suc n)

-- The number that digits spell behind `n`.
unfoldable pub value_from : ℕ → Text → ℕ
value_from n [] = n
value_from n (c ∷ s) = value_from (n * 10 + (c - b'0')) s

abbrev pub all_digits : Text → Bool
all_digits [] = true
all_digits (c ∷ s) = is_digit c && all_digits s

-- `BigInt(s)`, at a text in decimal; at any other text that the program reads it throws.
unfoldable pub big_int : Text → Option ℤ
unfolding value_from
big_int [] = some (pos 0)
big_int (c ∷ s) =
    if c == b'-'
    then if all_digits s && ltb 0 (length s) then some (neg (pos (value_from 0 s))) else none
    else if all_digits (c ∷ s)
    then some (pos (value_from 0 (c ∷ s)))
    else none
