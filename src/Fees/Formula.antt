-- ===== src/Fees/Formula.antt =====
-- The figures of each outcome, as the table at the head of feeComputation.ts gives them.
use elite_work.Base.{ℕ, suc, ◌-◌, ◌*◌, ◌/◌, ◌%◌, ◌≤◌, ◌<◌, ◌≡◌, ◌≢◌, refl, sym, ap, ◌∙◌, arith}
use elite_work.Base.Int.{pos, pos_part, ◌-ℤ◌, ◌*ℤ◌, pos-mul}
use elite_work.Base.Text.{Text, show_int}
use elite_work.Base.Text.Numerals.{show_int-injective}
use elite_work.Base.Outcome.{ok}
use elite_work.Money.{
  trunc, bps_divisor, contract_rounding, quotient, divide_with_policy, apply_bps,
}
use elite_work.Money.Policy.{quotient-trunc, apply_bps-quotient, divide_with_policy-IsDivision}
use elite_work.Fees.{
  TradeOutcome, release, refund, split, full_seller, full_buyer, FeeBreakdown, compute_fee,
}
use elite_work.Fees.Conservation.{breakdown, zero_text, ok-injective}
use elite_work.Fees.Bounds.{product, unit_square, mul_mono, pos-sub}

-- The breakdown of `amount` of which `lost` goes back to the buyer and a fee is taken of the rest.
abbrev pub charged : TradeOutcome → (amount lost fee_bps : ℕ) → Text → FeeBreakdown
charged o amount lost fee_bps now =
    let raw = amount - lost in
    let fee = raw * fee_bps / 10_000 in
    breakdown o (pos amount) (pos fee) (pos (raw - fee)) (pos lost) (pos fee_bps)
      (pos (raw * fee_bps % 10_000)) now

-- The breakdown with no fee and everything back to the buyer.
abbrev pub free : TradeOutcome → (amount fee_bps : ℕ) → Text → FeeBreakdown
free o amount fee_bps now =
    breakdown o (pos amount) (pos 0) (pos 0) (pos amount) (pos fee_bps) (pos 0) now

-- `amount * loss_bps * seller_loss_bps / (10_000 * 10_000)`
abbrev pub seller_loss : (amount gets loss : ℕ) → ℕ
seller_loss amount gets loss = amount * (10_000 - gets) * loss / 100_000_000

abbrev pub figures : TradeOutcome → (amount fee_bps gets loss : ℕ) → Text → FeeBreakdown
figures release a f g l now = charged release a 0 f now
figures refund a f g l now = free refund a f now
figures split a f g l now = charged split a (seller_loss a g l) f now
figures full_seller a f g l now = charged full_seller a 0 f now
figures full_buyer a f g l now = free full_buyer a f now

apply_bps_lem :
    (a f : ℕ)
    → apply_bps (pos a) (pos f) contract_rounding
      ≡ ok (record {
        value = pos (a * f / 10_000);
        residual = pos (a * f % 10_000);
        denominator = bps_divisor;
      })
apply_bps_lem a f =
    (apply_bps-quotient trunc (pos a) (pos f)).0 (omega arith)
    ∙ ap (λ q. ok (quotient q bps_divisor trunc)) (pos-mul a f)
    ∙ ap ok (quotient-trunc (a * f) 10_000 (omega arith))

divide_lem :
    (a g l : ℕ)
    → g ≤ 10_000
    → divide_with_policy
        (pos a *ℤ (bps_divisor -ℤ pos g) *ℤ pos l)
        (bps_divisor *ℤ bps_divisor)
        contract_rounding
      ≡ ok (record {
        value = pos (seller_loss a g l);
        residual = pos (a * (10_000 - g) * l % 100_000_000);
        denominator = pos 100_000_000;
      })
divide_lem a g l h =
    rw (product a g l h, unit_square)
      ((divide_with_policy-IsDivision trunc (pos (a * (10_000 - g) * l)) (pos 100_000_000)).0
        (omega arith)).0
    ∙ ap ok (quotient-trunc (a * (10_000 - g) * l) 100_000_000 (omega arith))

fee_le : (raw f : ℕ) → f ≤ 10_000 → raw * f / 10_000 ≤ raw
fee_le raw f h = grind (arith, mul_mono raw f 10_000 h)

loss_le : (a g l : ℕ) → g ≤ 10_000 → l ≤ 10_000 → seller_loss a g l ≤ a
loss_le a g l hg hl =
    grind (arith, mul_mono (a * (10_000 - g)) l 10_000 hl, mul_mono a (10_000 - g) 10_000)

-- With every ratio at most 100% each outcome is computed, with exactly these figures.
pub compute_fee-figures :
    (o : TradeOutcome) (amount fee_bps gets loss : ℕ) (now : Text)
    → fee_bps ≤ 10_000
    → gets ≤ 10_000
    → loss ≤ 10_000
    → compute_fee o (pos amount) (pos fee_bps) (pos gets) (pos loss) now
      ≡ ok (figures o amount fee_bps gets loss now)
unfolding compute_fee
compute_fee-figures release a f g l now hf hg hl =
    rw (apply_bps_lem a f, pos-sub a _ (fee_le a f hf)) (ground (arith, zero_text))
compute_fee-figures refund a f g l now hf hg hl = rw zero_text refl
compute_fee-figures split a f g l now hf hg hl =
    let le = loss_le a g l hg hl in
    let back : a - (a - seller_loss a g l) ≡ seller_loss a g l = omega arith in
    rw
      (
        divide_lem a g l hg,
        pos-sub a _ le,
        apply_bps_lem (a - seller_loss a g l) f,
        pos-sub (a - seller_loss a g l) _ (fee_le _ f hf),
        pos-sub a (a - seller_loss a g l) (omega arith),
        back,
      )
      refl
compute_fee-figures full_seller a f g l now hf hg hl =
    rw (apply_bps_lem a f, pos-sub a _ (fee_le a f hf)) (ground (arith, zero_text))
compute_fee-figures full_buyer a f g l now hf hg hl = rw zero_text refl

partial_loss : (a l : ℕ) → 0 < a → l < 10_000 → seller_loss a 0 l ≢ a
partial_loss a l ha hl e =
    let room = mul_mono (a * 10_000) (suc l) 10_000 hl in
    let whole : a * 100_000_000 ≤ a * 10_000 * l = omega (arith, e) in omega arith

-- For a positive amount, a fee of at most 100% and a loss share of the seller below 100%, the split
-- that awards the seller nothing and the full-buyer outcome refund the buyer different amounts.
pub full_buyer-ne-split :
    (amount fee_bps loss : ℕ) (now : Text) {b c : FeeBreakdown}
    → 0 < amount
    → fee_bps ≤ 10_000
    → loss < 10_000
    → compute_fee split (pos amount) (pos fee_bps) (pos 0) (pos loss) now ≡ ok b
    → compute_fee full_buyer (pos amount) (pos fee_bps) (pos 0) (pos loss) now ≡ ok c
    → b.buyer_refund ≢ c.buyer_refund
full_buyer-ne-split a f l now {b} {c} ha hf hl eb ec same =
    let split_is =
      ok-injective
        (sym eb ∙ compute_fee-figures split a f 0 l now hf (omega arith) (omega arith)) in
    let full_is =
      ok-injective
        (sym ec ∙ compute_fee-figures full_buyer a f 0 l now hf (omega arith) (omega arith)) in
    let texts : show_int (pos (seller_loss a 0 l)) ≡ show_int (pos a) =
      sym (ap (λ (r : FeeBreakdown). r.buyer_refund) split_is)
      ∙ same
      ∙ ap (λ (r : FeeBreakdown). r.buyer_refund) full_is in
    let amounts = show_int-injective (pos (seller_loss a 0 l)) (pos a) texts in
    partial_loss a l ha hl (ap pos_part amounts)
