-- ===== src/Money.antt =====
-- backend/src/lib/money.ts: division under a rounding policy, and the ledger that carries the
-- residual of one window into the next. A `bigint` is an integer `ℤ`; a thrown `Error` is a value.
pub mod Policy
pub mod Ledger
pub mod Decimal
use elite_work.Base.{ℕ, ◌+◌, Bool, true, false}
use elite_work.Base.Tests.{if◌then◌else◌}
use elite_work.Base.Int.{ℤ, pos, negsuc, neg, ◌+ℤ◌, ◌-ℤ◌, ◌*ℤ◌, ◌/ℤ◌, ltb_ℤ, leb_ℤ, eqb_ℤ}
use elite_work.Base.Outcome.{Outcome, ok, throw, throw_if, ◌>>=◌, ◌>>◌}

pub data MoneyError : Type 0 where
  denominator_not_positive negative_bps : MoneyError

-- `BPS_DIVISOR`
abbrev pub bps_divisor : ℤ
bps_divisor = pos 10_000

pub data RoundingPolicy : Type 0 where
  trunc floor ceil half_up half_even : RoundingPolicy

-- `CONTRACT_ROUNDING`, `DEFAULT_ROUNDING`
abbrev pub contract_rounding : RoundingPolicy
contract_rounding = trunc

abbrev pub default_rounding : RoundingPolicy
default_rounding = half_even

pub record DivisionResult : Type 0 where
  pub value : ℤ
  pub residual : ℤ
  pub denominator : ℤ

-- `step` and `twiceRemainder`
unfoldable pub step_of : ℤ → ℤ
step_of r = if ltb_ℤ (pos 0) r then pos 1 else negsuc 0

unfoldable pub twice_remainder : ℤ → ℤ
twice_remainder r = if ltb_ℤ r (pos 0) then neg r *ℤ pos 2 else r *ℤ pos 2

-- The `switch` of `divideWithPolicy`.
unfoldable pub rounded : RoundingPolicy → (truncated remainder step twice denominator : ℤ) → ℤ
rounded trunc t r step twice d = t
rounded floor t r step twice d = if ltb_ℤ r (pos 0) then t -ℤ pos 1 else t
rounded ceil t r step twice d = if ltb_ℤ (pos 0) r then t +ℤ pos 1 else t
rounded half_up t r step twice d = if leb_ℤ d twice then t +ℤ step else t
rounded half_even t r step twice d =
    if ltb_ℤ d twice
    then t +ℤ step
    else if ltb_ℤ twice d
    then t
    else if eqb_ℤ (t -ℤ (t /ℤ pos 2) *ℤ pos 2) (pos 0)
    then t
    else t +ℤ step

-- `divideWithPolicy`, once the denominator is known to be positive.
unfoldable pub quotient : (numerator denominator : ℤ) → RoundingPolicy → DivisionResult
unfolding rounded step_of twice_remainder
quotient n d policy =
    let truncated = n /ℤ d in
    let remainder = n -ℤ truncated *ℤ d in
    let value =
      rounded policy truncated remainder (step_of remainder) (twice_remainder remainder) d in
    if eqb_ℤ remainder (pos 0)
    then record { value = truncated; residual = pos 0; denominator = d }
    else record { value = value; residual = n -ℤ value *ℤ d; denominator = d }

unfoldable pub divide_with_policy :
    (numerator denominator : ℤ) → RoundingPolicy → Outcome MoneyError DivisionResult
unfolding quotient
divide_with_policy n d policy = do
  throw_if (leb_ℤ d (pos 0)) denominator_not_positive
  ok (quotient n d policy)

unfoldable pub apply_bps : (amount bps : ℤ) → RoundingPolicy → Outcome MoneyError DivisionResult
unfolding divide_with_policy
apply_bps amount bps policy = do
  throw_if (ltb_ℤ bps (pos 0)) negative_bps
  divide_with_policy (amount *ℤ bps) bps_divisor policy

-- `class DustLedger`
pub record DustLedger : Type 0 where
  pub residual : ℤ
  pub policy : RoundingPolicy
  pub denominator : ℤ

unfoldable pub new_dust_ledger :
    RoundingPolicy → (carried_in denominator : ℤ) → Outcome MoneyError DustLedger
new_dust_ledger policy carried_in d = do
  throw_if (leb_ℤ d (pos 0)) denominator_not_positive
  ok (record { residual = carried_in; policy = policy; denominator = d })

unfoldable pub accrue : ℤ → DustLedger → Outcome MoneyError (DivisionResult × DustLedger)
unfolding divide_with_policy
accrue numerator l = do
  result ← divide_with_policy (numerator +ℤ l.residual) l.denominator l.policy
  ok (result, record l { residual = result.residual })

unfoldable pub accrue_bps :
    (amount bps : ℤ) → DustLedger → Outcome MoneyError (DivisionResult × DustLedger)
unfolding accrue
accrue_bps amount bps l = accrue (amount *ℤ bps) l

unfoldable pub settle : DustLedger → ℤ × DustLedger
settle l =
    let whole = l.residual /ℤ l.denominator in
    (whole, record l { residual = l.residual -ℤ whole *ℤ l.denominator })
