-- ===== src/Fees/Conservation.antt =====
-- The parts of every fee breakdown add up to the escrowed total.
use elite_work.Base.{◌≡◌, refl, sym, ◌∙◌, arith, some}
use elite_work.Base.Int.{ℤ, pos, ◌+ℤ◌, ◌-ℤ◌, ◌*ℤ◌, int_laws, parts_of_eq}
use elite_work.Base.Text.{Text, show_int, big_int, codes}
use elite_work.Base.Text.Numerals.{big_int-show_int}
use elite_work.Base.Outcome.{Outcome, ok, >>=-eq-ok}
use elite_work.Money.{DivisionResult, bps_divisor, contract_rounding, divide_with_policy, apply_bps}
use elite_work.Fees.{
  TradeOutcome, release, refund, split, full_seller, full_buyer, FeeBreakdown, compute_fee,
  assert_fee_conservation,
}

-- The amounts that a breakdown prints.
pub record Prints (b : FeeBreakdown) (total net back fee dust : ℤ) : Type 0 where
  pub total_text : big_int b.total ≡ some total
  pub net_text : big_int b.seller_net ≡ some net
  pub back_text : big_int b.buyer_refund ≡ some back
  pub fee_text : big_int b.fee ≡ some fee
  pub dust_text : big_int b.fee_dust ≡ some dust

assert_Prints :
    (b : FeeBreakdown) {total net back fee dust : ℤ}
    → Prints b total net back fee dust
    → net +ℤ back +ℤ fee ≡ total
    → assert_fee_conservation b ≡ ok tt
unfolding assert_fee_conservation
assert_Prints b {total} {net} {back} {fee} p e = ground (arith, parts_of_eq e)

-- The breakdown of an outcome whose amounts are these.
abbrev pub breakdown : TradeOutcome → (total fee net back fee_bps dust : ℤ) → Text → FeeBreakdown
breakdown o total fee net back fee_bps dust now = record {
  outcome = o;
  total = show_int total;
  fee = show_int fee;
  seller_net = show_int net;
  buyer_refund = show_int back;
  fee_bps = fee_bps;
  fee_dust = show_int dust;
  calculated_at = now;
}

pub zero_text : show_int (pos 0) ≡ codes "0"
unfolding show_int
zero_text = refl

pub breakdown-Prints :
    (o : TradeOutcome) (total fee net back fee_bps dust : ℤ) (now : Text)
    → Prints (breakdown o total fee net back fee_bps dust now) total net back fee dust
breakdown-Prints o total fee net back fee_bps dust now = record {
  total_text = big_int-show_int total;
  net_text = big_int-show_int net;
  back_text = big_int-show_int back;
  fee_text = big_int-show_int fee;
  dust_text = big_int-show_int dust;
}

-- The seller's part of the total, before the fee.
abbrev pub RawOf : TradeOutcome → (amount gets loss raw : ℤ) → Type 0
RawOf split amount gets loss raw =
    (q : DivisionResult) × (divide_with_policy (amount *ℤ (bps_divisor -ℤ gets) *ℤ loss)
        (bps_divisor *ℤ bps_divisor) contract_rounding
      ≡ ok q)
    × (raw ≡ amount -ℤ q.value)
RawOf refund amount gets loss raw = raw ≡ pos 0
RawOf full_buyer amount gets loss raw = raw ≡ pos 0
RawOf _ amount gets loss raw = raw ≡ amount

-- The fee taken of that part.
abbrev pub FeeOf : TradeOutcome → (raw fee_bps : ℤ) → DivisionResult → Type 0
FeeOf refund raw fee_bps taken = (taken.value ≡ pos 0) × (taken.residual ≡ pos 0)
FeeOf full_buyer raw fee_bps taken = (taken.value ≡ pos 0) × (taken.residual ≡ pos 0)
FeeOf _ raw fee_bps taken = apply_bps raw fee_bps contract_rounding ≡ ok taken

-- What the computation of a breakdown has gone through.
pub record Settled (o : TradeOutcome) (amount fee_bps gets loss : ℤ) (now : Text) (b : FeeBreakdown)
    : Type 0 where
  pub raw : ℤ
  pub taken : DivisionResult
  pub raw_of : RawOf o amount gets loss raw
  pub fee_of : FeeOf o raw fee_bps taken
  pub made :
      b
      ≡ breakdown o amount taken.value
          (raw -ℤ taken.value)
          (amount -ℤ raw)
          fee_bps
          taken.residual
          now

pub self_sub : (a : ℤ) → a -ℤ a ≡ pos 0
self_sub a = omega int_laws

pub sub_zero : (a : ℤ) → a -ℤ pos 0 ≡ a
sub_zero a = omega int_laws

pub ok-injective : {E A : Type 0} {a b : A} → ◌≡◌ {A = Outcome E A} (ok a) (ok b) → a ≡ b
ok-injective e = cc

abbrev untaken : DivisionResult
untaken = record { value = pos 0; residual = pos 0; denominator = bps_divisor }

pub compute_fee-Settled :
    (o : TradeOutcome) (amount fee_bps gets loss : ℤ) (now : Text) (b : FeeBreakdown)
    → compute_fee o amount fee_bps gets loss now ≡ ok b
    → Settled o amount fee_bps gets loss now b
unfolding compute_fee
compute_fee-Settled release amount fee_bps gets loss now b h =
    let (taken, fee, same) = >>=-eq-ok (apply_bps amount fee_bps contract_rounding) _ h in
    record {
      raw = amount;
      taken = taken;
      raw_of = refl;
      fee_of = fee;
      made = sym (ok-injective same) ∙ rw (self_sub amount, zero_text) refl;
    }
compute_fee-Settled refund amount fee_bps gets loss now b h = record {
  raw = pos 0;
  taken = untaken;
  raw_of = refl;
  fee_of = (refl, refl);
  made = sym (ok-injective h) ∙ rw (self_sub (pos 0), sub_zero amount, zero_text) refl;
}
compute_fee-Settled split amount fee_bps gets loss now b h =
    let (q, lost, h') =
      >>=-eq-ok
        (divide_with_policy (amount *ℤ (bps_divisor -ℤ gets) *ℤ loss) (bps_divisor *ℤ bps_divisor)
          contract_rounding)
        _ h in
    let (taken, fee, same) =
      >>=-eq-ok (apply_bps (amount -ℤ q.value) fee_bps contract_rounding) _ h' in
    record {
      raw = amount -ℤ q.value;
      taken = taken;
      raw_of = (q, lost, refl);
      fee_of = fee;
      made = sym (ok-injective same);
    }
compute_fee-Settled full_seller amount fee_bps gets loss now b h =
    let (taken, fee, same) = >>=-eq-ok (apply_bps amount fee_bps contract_rounding) _ h in
    record {
      raw = amount;
      taken = taken;
      raw_of = refl;
      fee_of = fee;
      made = sym (ok-injective same) ∙ rw (self_sub amount, zero_text) refl;
    }
compute_fee-Settled full_buyer amount fee_bps gets loss now b h = record {
  raw = pos 0;
  taken = untaken;
  raw_of = refl;
  fee_of = (refl, refl);
  made = sym (ok-injective h) ∙ rw (self_sub (pos 0), sub_zero amount, zero_text) refl;
}

-- For every outcome and every amount and ratio, a breakdown that is computed passes the
-- conservation check.
compute_fee-conserves :
    (o : TradeOutcome) (amount fee_bps gets loss : ℤ) (now : Text) (b : FeeBreakdown)
    → compute_fee o amount fee_bps gets loss now ≡ ok b
    → assert_fee_conservation b ≡ ok tt
compute_fee-conserves o amount fee_bps gets loss now b h =
    let s = compute_fee-Settled o amount fee_bps gets loss now b h in
    rw s.made (
      assert_Prints _
        (breakdown-Prints o amount s.taken.value (s.raw -ℤ s.taken.value) (amount -ℤ s.raw) fee_bps
          s.taken.residual now)
        (omega int_laws))
