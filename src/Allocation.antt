-- ===== src/Allocation.antt =====
-- backend/src/lib/lossAllocation.ts: the largest-remainder split of a total. The arrays that the
-- first loop fills are built by one recursion over the shares, and `Array.prototype.sort`, which is
-- stable, is an insertion sort.
pub mod Shares
pub mod Distribution
pub mod Order
pub mod ZeroDust
use elite_work.Base.{ℕ, zero, suc, ◌+◌, Bool, true, false, not, List, [], ◌∷◌, map}
use elite_work.Base.Tests.{if◌then◌else◌}
use elite_work.Base.Lists.{any}
use elite_work.Base.Int.{ℤ, pos, ◌+ℤ◌, ◌-ℤ◌, ◌*ℤ◌, ◌/ℤ◌, ltb_ℤ, eqb_ℤ}
use elite_work.Base.Outcome.{Outcome, ok, throw, throw_if, ◌>>=◌, ◌>>◌}

pub data AllocationError : Type 0 where
  negative_total shares_sum_wrong negative_share dust_left bad_ratio missing_share : AllocationError

abbrev pub bps_divisor : ℤ
bps_divisor = pos 10_000

pub record AllocationInput : Type 0 where
  pub total : ℤ
  pub shares_bps : List ℤ

pub record AllocationResult : Type 0 where
  pub exact : List ℤ
  pub allocated : List ℤ
  pub remainder : ℤ
  pub sum : ℤ

-- `{ index, remainder }`
pub record Remainder : Type 0 where
  pub index : ℕ
  pub remainder : ℤ

-- What the loop of step 1 has filled.
pub record FirstStep : Type 0 where
  pub exact : List ℤ
  pub floored : List ℤ
  pub remainders : List Remainder
  pub assigned_sum : ℤ

-- `xs.reduce((a, b) => a + b, 0n)`
unfoldable pub sum_from : ℤ → List ℤ → ℤ
sum_from acc [] = acc
sum_from acc (x ∷ xs) = sum_from (acc +ℤ x) xs

-- Step 1, from the index `i` on.
unfoldable pub shares_from : (total : ℤ) (i : ℕ) → List ℤ → FirstStep
shares_from total i [] = record { exact = []; floored = []; remainders = []; assigned_sum = pos 0 }
shares_from total i (share ∷ shares) =
    let product = total *ℤ share in
    let floor_value = product /ℤ bps_divisor in
    let rest = shares_from total (suc i) shares in
    record {
      exact = product ∷ rest.exact;
      floored = floor_value ∷ rest.floored;
      remainders =
          record { index = i; remainder = product -ℤ floor_value *ℤ bps_divisor } ∷ rest.remainders;
      assigned_sum = floor_value +ℤ rest.assigned_sum;
    }

-- `remainders.sort(…)`: descending, and stable, since an element stays in front of its equals.
unfoldable pub insert_desc : Remainder → List Remainder → List Remainder
insert_desc r [] = r ∷ []
insert_desc r (x ∷ xs) = if ltb_ℤ r.remainder x.remainder then x ∷ insert_desc r xs else r ∷ x ∷ xs

unfoldable pub sort_desc : List Remainder → List Remainder
unfolding insert_desc
sort_desc [] = []
sort_desc (x ∷ xs) = insert_desc x (sort_desc xs)

-- `allocated[i] += 1n`
unfoldable pub add_at : ℕ → List ℤ → List ℤ
add_at i [] = []
add_at zero (x ∷ xs) = (x +ℤ pos 1) ∷ xs
add_at (suc i) (x ∷ xs) = x ∷ add_at i xs

-- The loop of step 2 over the sorted remainders.
unfoldable pub distribute : (remaining : ℤ) → List Remainder → List ℤ → List ℤ
unfolding add_at
distribute remaining [] allocated = allocated
distribute remaining (r ∷ rs) allocated =
    let more = distribute (remaining -ℤ pos 1) rs (add_at r.index allocated) in
    if ltb_ℤ (pos 0) remaining then more else allocated

-- The body, behind the checks.
unfoldable pub allocate : (total : ℤ) → List ℤ → AllocationResult
unfolding shares_from sort_desc distribute sum_from
allocate total shares_bps =
    let shares = shares_from total 0 shares_bps in
    let remaining = total -ℤ shares.assigned_sum in
    let allocated = distribute remaining (sort_desc shares.remainders) shares.floored in
    record {
      exact = map (λ e. e /ℤ bps_divisor) shares.exact;
      allocated = allocated;
      remainder = remaining;
      sum = sum_from (pos 0) allocated;
    }

unfoldable pub largest_remainder_allocation :
    AllocationInput → Outcome AllocationError AllocationResult
unfolding allocate sum_from
largest_remainder_allocation input = do
  throw_if (ltb_ℤ input.total (pos 0)) negative_total
  throw_if (not (eqb_ℤ (sum_from (pos 0) input.shares_bps) bps_divisor)) shares_sum_wrong
  throw_if (any (λ s. ltb_ℤ s (pos 0)) input.shares_bps) negative_share
  ok (allocate input.total input.shares_bps)

-- `[result.allocated[0], result.allocated[1]]`
abbrev pub first_two : List ℤ → Outcome AllocationError (ℤ × ℤ)
first_two (a ∷ b ∷ more) = ok (a, b)
first_two _ = throw missing_share

unfoldable pub split_loss_ratio :
    (total buyer_loss_bps seller_loss_bps : ℤ) → Outcome AllocationError (ℤ × ℤ)
unfolding largest_remainder_allocation
split_loss_ratio total buyer seller = do
  throw_if (not (eqb_ℤ (buyer +ℤ seller) bps_divisor)) bad_ratio
  result ← largest_remainder_allocation (record { total = total; shares_bps = buyer ∷ seller ∷ [] })
  first_two result.allocated

unfoldable pub assert_zero_dust : AllocationResult → ℤ → Outcome AllocationError Unit
assert_zero_dust result total = do throw_if (not (eqb_ℤ result.sum total)) dust_left; ok tt
