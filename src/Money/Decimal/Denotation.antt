-- ===== src/Money/Decimal/Denotation.antt =====
-- The decimal number that an accepted text denotes.
use native.Mathlib.Nat.{pow-suc}
use elite_work.Base.{
  ℕ, zero, suc, ◌+◌, ◌-◌, ◌*◌, ◌^◌, ◌≤◌, ◌≡◌, refl, ap, ◌∙◌, ◌⊎◌, inl, inr, true, List, [], ◌∷◌,
  ◌++◌, append-nil, arith,
}
use elite_work.Base.Tests.{if◌then◌else◌, Bool-cases}
use elite_work.Base.Lists.{length, replicate, All, length-append, length-replicate}
use elite_work.Base.Int.{ℤ, pos, abs, ◌≤ℤ◌}
use elite_work.Base.Text.{Text, is_digit, all_digits, trim, split_on, pad_end, value_from}
use elite_work.Base.Text.Numerals.{IsDigit, value_from-append}
use elite_work.Base.Outcome.{ok}
use elite_work.Money.Decimal.{
  drop_digits, is_fraction, fraction_part, strip_minus, is_negative, is_decimal, assert_i128_range,
  parse_decimal_to_stroops,
}
use elite_work.Money.Decimal.RoundTrip.{number, split_on-digits, split_on-number, value_from_shift}
use elite_work.Money.Decimal.Reading.{InRange, spelled, with_sign, parse-Accepted}

drop_digits_lem : (s : Text) → (w : Text) × (s ≡ w ++ drop_digits s) × All IsDigit w
unfolding drop_digits
drop_digits_lem [] = ([], refl, tt)
drop_digits_lem (c ∷ s) = elim (Bool-cases (is_digit c)) [
  | inl digit ↦
      let (w, same, digits) = drop_digits_lem s in
      rw digit (c ∷ w, ap (λ (r : Text). c ∷ r) same, (ground arith, digits))
  | inr other ↦ rw other ([], refl, tt)
]

all_digits-All : (s : Text) → all_digits s ≡ true → All IsDigit s
all_digits-All [] h = tt
all_digits-All (c ∷ s) h = (ground arith, all_digits-All s (ground arith))

-- The two parts of a decimal text without its sign.
record Parts (s : Text) : Type 0 where
  whole : Text
  fraction : Text
  whole_digits : All IsDigit whole
  fraction_digits : All IsDigit fraction
  joined : ((s ≡ whole) × (fraction ≡ [])) ⊎ (s ≡ number whole fraction)
  split : (split_on b'.' s).0 ≡ whole
  split_fraction : fraction_part (split_on b'.' s) ≡ fraction

Parts-of : (s r : Text) → r ≡ drop_digits s → is_fraction r ≡ true → Parts s
Parts-of s [] e h =
    let (w, same, digits) = drop_digits_lem s in
    let whole : s ≡ w = same ∙ rw (← e) (append-nil w) in
    let cut : split_on b'.' s ≡ (w, []) = ap (split_on b'.') whole ∙ split_on-digits w digits in
    record {
      whole = w;
      fraction = [];
      whole_digits = digits;
      fraction_digits = tt;
      joined = inl (whole, refl);
      split = ap (λ (p : Text × List Text). p.0) cut;
      split_fraction = ap fraction_part cut;
    }
Parts-of s (c ∷ f) e h =
    let (w, same, digits) = drop_digits_lem s in
    let point : c ≡ b'.' = ground arith in
    let more : All IsDigit f = all_digits-All f (ground arith) in
    let whole : s ≡ number w f = same ∙ rw (← e, point) refl in
    let cut : split_on b'.' s ≡ (w, f ∷ []) =
      ap (split_on b'.') whole ∙ split_on-number w f digits more in
    record {
      whole = w;
      fraction = f;
      whole_digits = digits;
      fraction_digits = more;
      joined = inr whole;
      split = ap (λ (p : Text × List Text). p.0) cut;
      split_fraction = ap fraction_part cut;
    }

zeros_value : (n m : ℕ) → value_from n (replicate m b'0') ≡ n * 10 ^ m
unfolding value_from
zeros_value n zero = omega arith
zeros_value n (suc m) = zeros_value (n * 10 + (b'0' - b'0')) m ∙ rw (pow-suc 10 m) (omega arith)

padded_value :
    (w f : Text) (k : ℕ)
    → length f ≤ k
    → value_from 0 (w ++ pad_end k f)
      ≡ value_from 0 w * 10 ^ k + value_from 0 f * 10 ^ (k - length f)
padded_value w f k h =
    let full : length (pad_end k f) ≡ k = omega (
      arith,
      length-append {0} f (replicate (k - length f) b'0'),
      length-replicate {0} {A = ℕ} (k - length f) b'0',
    ) in
    value_from-append 0 w (pad_end k f)
    ∙ value_from_shift (pad_end k f) (value_from 0 w)
    ∙ rw (full, value_from-append 0 f (replicate (k - length f) b'0'), zeros_value) refl

-- The decimal number that a text writes, in stroops.
pub record Denotes (t : Text) (k : ℕ) (a : ℤ) : Type 0 where
  pub whole : Text
  pub fraction : Text
  pub whole_digits : All IsDigit whole
  pub fraction_digits : All IsDigit fraction
  pub joined :
      ((strip_minus (trim t) ≡ whole) × (fraction ≡ []))
      ⊎ (strip_minus (trim t) ≡ number whole fraction)
  pub fits : length fraction ≤ k
  pub amount :
      abs a ≡ value_from 0 whole * 10 ^ k + value_from 0 fraction * 10 ^ (k - length fraction)
  pub sign : if is_negative (trim t) then a ≤ℤ pos 0 else pos 0 ≤ℤ a
  pub bounded : InRange a

abs-with_sign : (s : Text) (m : ℕ) {a : ℤ} → a ≡ with_sign s m → abs a ≡ m
abs-with_sign s m e = rw e (ground arith)

sign_with_sign :
    (s : Text) (m : ℕ) {a : ℤ}
    → a ≡ with_sign s m
    → if is_negative s then a ≤ℤ pos 0 else pos 0 ≤ℤ a
sign_with_sign s m e = elim (Bool-cases (is_negative s)) [
  | inl minus ↦ rw (e, minus) (ground arith)
  | inr plus ↦ rw (e, plus) (ground arith)
]

-- Whatever is read, the amount is exactly the decimal number that the text writes, and in range.
pub parse-Denotes : (t : Text) (k : ℕ) (a : ℤ) → parse_decimal_to_stroops t k ≡ ok a → Denotes t k a
unfolding is_decimal assert_i128_range
parse-Denotes t k a h =
    let ok_a = parse-Accepted t k a h in
    let ps = Parts-of (strip_minus (trim t)) _ refl (ground (arith, ok_a.decimal)) in
    let room : length ps.fraction ≤ k = rw (← ps.split_fraction) ok_a.fits in
    let spelled_value : spelled (trim t) k
        ≡ value_from 0 ps.whole * 10 ^ k
          + value_from 0 ps.fraction * 10 ^ (k - length ps.fraction) =
      rw (ps.split, ps.split_fraction) (padded_value ps.whole ps.fraction k room) in
    record {
      whole = ps.whole;
      fraction = ps.fraction;
      whole_digits = ps.whole_digits;
      fraction_digits = ps.fraction_digits;
      joined = ps.joined;
      fits = room;
      amount = abs-with_sign (trim t) _ ok_a.amount ∙ spelled_value;
      sign = sign_with_sign (trim t) _ ok_a.amount;
      bounded = ground (arith, ok_a.in_range);
    }
