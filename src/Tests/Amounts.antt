-- ===== src/Tests/Amounts.antt =====
-- The arithmetic of amounts, fees and splits at concrete inputs.
use elite_work.Base.{ℕ, ◌≡◌, ◌≢◌, refl, ap, arith, List, [], ◌∷◌}
use elite_work.Base.Int.{pos, negsuc, pos_part, ◌+ℤ◌, ◌≤ℤ◌}
use elite_work.Base.Text.{Text, codes}
use elite_work.Base.Outcome.{ok, throw, ◌>>=◌}
use elite_work.Money.{
  half_even, trunc, DustLedger, quotient, divide_with_policy, denominator_not_positive,
}
use elite_work.Money.Policy.{IsDivision, divide_with_policy-IsDivision}
use elite_work.Money.Ledger.{IsCarried, accrue_all-IsCarried}
use elite_work.Money.Decimal.{
  parse_decimal_to_stroops, format_stroops_to_decimal, normalize_decimal_string, i128_max, i128_min,
}
use elite_work.Money.Decimal.RoundTrip.{parse-format_in_range}
use elite_work.Money.Decimal.Reading.{InRange, total}
use elite_work.Money.Decimal.Denotation.{Denotes, parse-Denotes}
use elite_work.Fees.{release, split, full_buyer, compute_fee, FeeBreakdown}
use elite_work.Fees.Bounds.{IsFair, compute_fee-IsFair}
use elite_work.Fees.Formula.{figures, compute_fee-figures, full_buyer-ne-split}
use elite_work.Allocation.{AllocationResult, AllocationInput}
use elite_work.Allocation.Shares.{naturals, sum}
use elite_work.Allocation.ZeroDust.{
  IsSplit, largest_remainder_allocation-IsSplit, largest_remainder_allocation_accepts,
}

abbrev noon : Text
noon = codes "2025-01-01T12:00:00.000Z"

divide_with_policy-IsDivision_example :
    (pos 1 ≤ℤ pos 10
      → (divide_with_policy (negsuc 24) (pos 10) half_even
          ≡ ok (quotient (negsuc 24) (pos 10) half_even))
        × IsDivision half_even
            (negsuc 24)
            (pos_part (pos 10))
            (quotient (negsuc 24) (pos 10) half_even))
    × (pos 10 ≤ℤ pos 0
        → divide_with_policy (negsuc 24) (pos 10) half_even ≡ throw denominator_not_positive)
divide_with_policy-IsDivision_example = divide_with_policy-IsDivision half_even (negsuc 24) (pos 10)

abbrev ledger : DustLedger
ledger = record { residual = pos 30; policy = half_even; denominator = pos 100 }

accrue_all-IsCarried_example : IsCarried (pos 333 ∷ negsuc 49 ∷ pos 1234 ∷ []) ledger 100
accrue_all-IsCarried_example =
    accrue_all-IsCarried (pos 333 ∷ negsuc 49 ∷ pos 1234 ∷ []) ledger 100 refl (omega arith)
      (omega arith)

abbrev full_ledger : DustLedger
full_ledger = record { residual = pos 730; policy = trunc; denominator = pos 100 }

a_bit_below : negsuc 15_000_000 ≤ℤ i128_max
unfolding i128_max
a_bit_below = omega arith

a_bit_above : i128_min ≤ℤ negsuc 15_000_000
unfolding i128_min
a_bit_above = omega arith

cents-InRange : InRange (pos 25)
unfolding i128_max i128_min
cents-InRange = (omega arith, omega arith)

owed-InRange : InRange (negsuc 9)
unfolding i128_max i128_min
owed-InRange = (omega arith, omega arith)

sum-InRange : InRange (total (pos 25 ∷ negsuc 9 ∷ []))
unfolding i128_max i128_min ◌+ℤ◌
sum-InRange = (omega arith, omega arith)

read_cents : parse_decimal_to_stroops (format_stroops_to_decimal (pos 25) 2) 2 ≡ ok (pos 25)
read_cents = parse-format_in_range (pos 25) 2 (omega arith) cents-InRange.0 cents-InRange.1

parse-format_in_range_example :
    parse_decimal_to_stroops (format_stroops_to_decimal (negsuc 15_000_000) 7) 7
    ≡ ok (negsuc 15_000_000)
parse-format_in_range_example =
    parse-format_in_range (negsuc 15_000_000) 7 (omega arith) a_bit_below a_bit_above

parse-Denotes_example : Denotes (format_stroops_to_decimal (pos 25) 2) 2 (pos 25)
parse-Denotes_example = parse-Denotes (format_stroops_to_decimal (pos 25) 2) 2 (pos 25) read_cents

normalized :
    normalize_decimal_string (format_stroops_to_decimal (pos 25) 2) 2
    ≡ ok (format_stroops_to_decimal (pos 25) 2)
unfolding normalize_decimal_string
normalized = ap (λ r. r >>= λ a. ok (format_stroops_to_decimal a 2)) read_cents

compute_fee-figures_example :
    compute_fee split (pos 1_000_003) (pos 150) (pos 2_500) (pos 3_333) noon
    ≡ ok (figures split 1_000_003 150 2_500 3_333 noon)
compute_fee-figures_example =
    compute_fee-figures split 1_000_003 150 2_500 3_333 noon (omega arith) (omega arith)
      (omega arith)

compute_fee-IsFair_example :
    (b : FeeBreakdown) × (compute_fee release (pos 999) (pos 250) (pos 0) (pos 0) noon ≡ ok b)
    × IsFair 999 b
compute_fee-IsFair_example =
    compute_fee-IsFair release 999 250 0 0 noon (omega arith) (omega arith) (omega arith)

full_buyer-ne-split_example :
    (figures split 1_000 100 0 5_000 noon).buyer_refund
    ≢ (figures full_buyer 1_000 100 0 5_000 noon).buyer_refund
full_buyer-ne-split_example =
    full_buyer-ne-split 1_000 100 5_000 noon (omega arith) (omega arith) (omega arith)
      (compute_fee-figures split 1_000 100 0 5_000 noon (omega arith) (omega arith) (omega arith))
      (compute_fee-figures full_buyer 1_000 100 0 5_000 noon (omega arith) (omega arith)
        (omega arith))

abbrev thirds : List ℕ
thirds = 3_333 ∷ 3_333 ∷ 3_334 ∷ []

abbrev in_thirds : AllocationResult
in_thirds = (largest_remainder_allocation_accepts 100 thirds refl).0

abbrev hundred : AllocationInput
hundred = record { total = pos 100; shares_bps = naturals thirds }

largest_remainder_allocation-IsSplit_example :
    (t : ℕ) × (ss : List ℕ) × (pos 100 ≡ pos t)
    × (naturals thirds ≡ naturals ss)
    × (sum ss ≡ 10_000)
    × IsSplit t ss in_thirds
largest_remainder_allocation-IsSplit_example =
    largest_remainder_allocation-IsSplit hundred in_thirds
      (largest_remainder_allocation_accepts 100 thirds refl).1
