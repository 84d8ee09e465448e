-- ===== src/Fees.antt =====
-- backend/src/lib/feeComputation.ts: the platform fee of each trade outcome, under the contract's
-- truncating division. `calculatedAt` is an argument, since it is the clock's; `feeBps` is a whole
-- number, as `BigInt(feeBps)` demands.
pub mod Conservation
pub mod Bounds
pub mod Formula
use elite_work.Base.{◌≡◌, Bool, true, false, not, Option, none, some}
use elite_work.Base.Tests.{if◌then◌else◌}
use elite_work.Base.Int.{ℤ, pos, ◌+ℤ◌, ◌-ℤ◌, ◌*ℤ◌, eqb_ℤ}
use elite_work.Base.Text.{Text, show_int, big_int, codes}
use elite_work.Base.Outcome.{Outcome, ok, throw, ◌>>=◌, ◌>>◌}
use elite_work.Money.{
  MoneyError, DivisionResult, bps_divisor, contract_rounding, divide_with_policy, apply_bps,
}

pub data TradeOutcome : Type 0 where
  release refund split full_seller full_buyer : TradeOutcome

pub record FeeBreakdown : Type 0 where
  pub outcome : TradeOutcome
  pub total : Text
  pub fee : Text
  pub seller_net : Text
  pub buyer_refund : Text
  pub fee_bps : ℤ
  pub fee_dust : Text
  pub calculated_at : Text

unfoldable pub compute_release_fee :
    (amount fee_bps : ℤ) (now : Text) → Outcome MoneyError FeeBreakdown
compute_release_fee amount fee_bps now = do
  r ← apply_bps amount fee_bps contract_rounding
  let seller_net = amount -ℤ r.value
  ok (record {
    outcome = release;
    total = show_int amount;
    fee = show_int r.value;
    seller_net = show_int seller_net;
    buyer_refund = codes "0";
    fee_bps = fee_bps;
    fee_dust = show_int r.residual;
    calculated_at = now;
  })

unfoldable pub compute_refund_fee : (amount fee_bps : ℤ) (now : Text) → FeeBreakdown
compute_refund_fee amount fee_bps now = record {
  outcome = refund;
  total = show_int amount;
  fee = codes "0";
  seller_net = codes "0";
  buyer_refund = show_int amount;
  fee_bps = fee_bps;
  fee_dust = codes "0";
  calculated_at = now;
}

unfoldable pub compute_split_fee :
    (amount seller_gets_bps seller_loss_bps fee_bps : ℤ) (now : Text)
    → Outcome MoneyError FeeBreakdown
compute_split_fee amount seller_gets_bps seller_loss_bps fee_bps now = do
  let loss_bps = bps_divisor -ℤ seller_gets_bps
  loss ←
      divide_with_policy (amount *ℤ loss_bps *ℤ seller_loss_bps) (bps_divisor *ℤ bps_divisor)
        contract_rounding
  let seller_raw = amount -ℤ loss.value
  let buyer_refund = amount -ℤ seller_raw
  r ← apply_bps seller_raw fee_bps contract_rounding
  let seller_net = seller_raw -ℤ r.value
  ok (record {
    outcome = split;
    total = show_int amount;
    fee = show_int r.value;
    seller_net = show_int seller_net;
    buyer_refund = show_int buyer_refund;
    fee_bps = fee_bps;
    fee_dust = show_int r.residual;
    calculated_at = now;
  })

unfoldable pub compute_full_seller_fee :
    (amount fee_bps : ℤ) (now : Text) → Outcome MoneyError FeeBreakdown
compute_full_seller_fee amount fee_bps now = do
  r ← apply_bps amount fee_bps contract_rounding
  let seller_net = amount -ℤ r.value
  ok (record {
    outcome = full_seller;
    total = show_int amount;
    fee = show_int r.value;
    seller_net = show_int seller_net;
    buyer_refund = codes "0";
    fee_bps = fee_bps;
    fee_dust = show_int r.residual;
    calculated_at = now;
  })

unfoldable pub compute_full_buyer_fee : (amount fee_bps : ℤ) (now : Text) → FeeBreakdown
compute_full_buyer_fee amount fee_bps now = record {
  outcome = full_buyer;
  total = show_int amount;
  fee = codes "0";
  seller_net = codes "0";
  buyer_refund = show_int amount;
  fee_bps = fee_bps;
  fee_dust = codes "0";
  calculated_at = now;
}

unfoldable pub compute_fee :
    TradeOutcome
    → (amount fee_bps seller_gets_bps seller_loss_bps : ℤ) (now : Text)
    → Outcome MoneyError FeeBreakdown
unfolding compute_release_fee compute_refund_fee compute_split_fee compute_full_seller_fee
    compute_full_buyer_fee
compute_fee release amount fee_bps gets loss now = compute_release_fee amount fee_bps now
compute_fee refund amount fee_bps gets loss now = ok (compute_refund_fee amount fee_bps now)
compute_fee split amount fee_bps gets loss now = compute_split_fee amount gets loss fee_bps now
compute_fee full_seller amount fee_bps gets loss now = compute_full_seller_fee amount fee_bps now
compute_fee full_buyer amount fee_bps gets loss now = ok (compute_full_buyer_fee amount fee_bps now)

pub data FeeAssertion : Type 0 where
  not_a_number conservation_violated : FeeAssertion

abbrev number_of : Text → Outcome FeeAssertion ℤ
number_of t = elim (big_int t) [ none ↦ throw not_a_number | some a ↦ ok a ]

unfoldable pub assert_fee_conservation : FeeBreakdown → Outcome FeeAssertion Unit
assert_fee_conservation b = do
  total ← number_of b.total
  net ← number_of b.seller_net
  back ← number_of b.buyer_refund
  fee ← number_of b.fee
  if not (eqb_ℤ (net +ℤ back +ℤ fee) total) then throw conservation_violated else ok tt
