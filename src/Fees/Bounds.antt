-- ===== src/Fees/Bounds.antt =====
-- With amounts and ratios in their ranges every outcome has a breakdown, and no part of it is
-- negative or above the total.
use elite_work.Base.{ℕ, suc, ◌+◌, ◌-◌, ◌*◌, ◌≤◌, ◌<◌, ◌≡◌, refl, ap, ◌∙◌, arith}
use elite_work.Base.Int.{
  ℤ, pos, negsuc, abs, ◌+ℤ◌, ◌-ℤ◌, ◌*ℤ◌, ◌≤ℤ◌, int_laws, +ℤ_parts, *ℤ_parts, pos-mul, parts_of_eq,
}
use elite_work.Base.Text.{Text}
use elite_work.Base.Outcome.{ok}
use elite_work.Money.{
  DivisionResult, trunc, bps_divisor, contract_rounding, quotient, divide_with_policy, apply_bps,
}
use elite_work.Money.Policy.{
  IsDivision, quotient-IsDivision, divide_with_policy-IsDivision, apply_bps-quotient,
}
use elite_work.Fees.{
  TradeOutcome, release, refund, split, full_seller, full_buyer, FeeBreakdown, compute_fee,
}
use elite_work.Fees.Conservation.{
  Prints, breakdown, breakdown-Prints, self_sub, sub_zero, zero_text,
}

pub mul_mono : (a x y : ℕ) → x ≤ y → a * x ≤ a * y
mul_mono a x y h = grind arith

below_factor : (v a r n d : ℕ) → v * d + r ≡ n → n ≤ a * d → 0 < d → v ≤ a
below_factor v a r n d e h p = grind arith

negative_share : (w d : ℕ) → d ≤ suc w * d
negative_share w d = grind arith

-- A truncated share of at most the whole lies between nothing and the whole.
share_bounds :
    (a n d : ℕ) (q : DivisionResult)
    → IsDivision trunc (pos n) d q
    → n ≤ a * d
    → 0 < d
    → (v r : ℕ) × (q.value ≡ pos v) × (q.residual ≡ pos r) × (v ≤ a) × (r < d)
share_bounds a n d q s hi h =
    from q.value q.residual s.exact s.small (s.respects.0 (omega arith)) refl refl
  where
    from :
        (v r : ℤ)
        → pos n ≡ v *ℤ pos d +ℤ r
        → abs r < d
        → pos 0 ≤ℤ r
        → q.value ≡ v
        → q.residual ≡ r
        → (v r : ℕ) × (q.value ≡ pos v) × (q.residual ≡ pos r) × (v ≤ a) × (r < d)
    from (pos v) (pos r) e small up ev er =
        let whole : v * d + r ≡ n =
          omega
            (arith, parts_of_eq e, +ℤ_parts (pos v *ℤ pos d) (pos r), *ℤ_parts (pos v) (pos d)) in
        (v, r, ev, er, below_factor v a r n d whole hi h, omega arith)
    from (negsuc v) (pos r) e small up ev er = absurd (
        omega (
          arith,
          parts_of_eq e,
          +ℤ_parts (negsuc v *ℤ pos d) (pos r),
          *ℤ_parts (negsuc v) (pos d),
          negative_share v d,
        ))
    from v (negsuc r) e small up ev er = absurd (omega arith)

fee_share :
    (a f : ℕ)
    → f ≤ 10_000
    → (q : DivisionResult) × (apply_bps (pos a) (pos f) contract_rounding ≡ ok q)
      × ((v r : ℕ) × (q.value ≡ pos v) × (q.residual ≡ pos r) × (v ≤ a) × (r < 10_000))
fee_share a f h = (
  quotient (pos (a * f)) bps_divisor trunc,
  (apply_bps-quotient trunc (pos a) (pos f)).0 (omega arith)
      ∙ ap (λ n. ok (quotient n bps_divisor trunc)) (pos-mul a f),
  share_bounds a (a * f) 10_000 _ (quotient-IsDivision trunc (pos (a * f)) 10_000 (omega arith))
      (mul_mono a f 10_000 h) (omega arith),
)

pub product :
    (a g l : ℕ) → g ≤ 10_000 → pos a *ℤ (bps_divisor -ℤ pos g) *ℤ pos l ≡ pos (a * (10_000 - g) * l)
product a g l h = rw (lost, pos-mul a (10_000 - g), pos-mul (a * (10_000 - g)) l) refl
  where
    lost : bps_divisor -ℤ pos g ≡ pos (10_000 - g)
    lost = omega int_laws

pub unit_square : bps_divisor *ℤ bps_divisor ≡ pos 100_000_000
unit_square = pos-mul 10_000 10_000

loss_share :
    (a g l : ℕ)
    → g ≤ 10_000
    → l ≤ 10_000
    → (q : DivisionResult) × (divide_with_policy
          (pos a *ℤ (bps_divisor -ℤ pos g) *ℤ pos l)
          (bps_divisor *ℤ bps_divisor)
          contract_rounding
        ≡ ok q)
      × ((v r : ℕ) × (q.value ≡ pos v) × (q.residual ≡ pos r) × (v ≤ a) × (r < 100_000_000))
loss_share a g l hg hl = (
  quotient (pos (a * (10_000 - g) * l)) (pos 100_000_000) trunc,
  rw (product a g l hg, unit_square)
      ((divide_with_policy-IsDivision trunc _ (pos 100_000_000)).0 (omega arith)).0,
  share_bounds a (a * (10_000 - g) * l) 100_000_000 _
      (quotient-IsDivision trunc (pos (a * (10_000 - g) * l)) 100_000_000 (omega arith))
      (grind (arith, mul_mono (a * (10_000 - g)) l 10_000 hl, mul_mono a (10_000 - g) 10_000))
      (omega arith),
)

-- The amounts of a breakdown as numbers: nothing is negative, and nothing is lost.
pub record IsFair (amount : ℕ) (b : FeeBreakdown) : Type 0 where
  pub net : ℕ
  pub back : ℕ
  pub fee : ℕ
  pub dust : ℕ
  pub printed : Prints b (pos amount) (pos net) (pos back) (pos fee) (pos dust)
  pub conserved : net + back + fee ≡ amount
  pub dust_small : dust < 10_000

pub pos-sub : (a b : ℕ) → b ≤ a → pos a -ℤ pos b ≡ pos (a - b)
pos-sub a b h = omega int_laws

breakdown-IsFair :
    (o : TradeOutcome) (a raw : ℕ) (fee_bps : ℤ) (taken : DivisionResult) (now : Text)
    → raw ≤ a
    → ((v r : ℕ) × (taken.value ≡ pos v) × (taken.residual ≡ pos r) × (v ≤ raw) × (r < 10_000))
    → IsFair a (
        breakdown o
          (pos a)
          taken.value
          (pos raw -ℤ taken.value)
          (pos a -ℤ pos raw)
          fee_bps
          taken.residual
          now)
breakdown-IsFair o a raw fee_bps taken now h (v, r, ev, er, le, lt) = record {
  net = raw - v;
  back = a - raw;
  fee = v;
  dust = r;
  printed =
      rw (ev, er, pos-sub raw v le, pos-sub a raw h)
        (breakdown-Prints o (pos a) (pos v) (pos (raw - v)) (pos (a - raw)) fee_bps (pos r) now);
  conserved = omega arith;
  dust_small = lt;
}

abbrev nothing : DivisionResult
nothing = record { value = pos 0; residual = pos 0; denominator = bps_divisor }

none_taken :
    (v r : ℕ) × (nothing.value ≡ pos v) × (nothing.residual ≡ pos r) × (v ≤ 0) × (r < 10_000)
none_taken = (0, 0, refl, refl, omega arith, omega arith)

-- Every outcome at a non-negative amount, with each ratio at most 100%, has a breakdown, whose
-- parts are not negative and add up to the amount.
pub compute_fee-IsFair :
    (o : TradeOutcome) (amount fee_bps gets loss : ℕ) (now : Text)
    → fee_bps ≤ 10_000
    → gets ≤ 10_000
    → loss ≤ 10_000
    → (b : FeeBreakdown) × (compute_fee o (pos amount) (pos fee_bps) (pos gets) (pos loss) now
        ≡ ok b)
      × IsFair amount b
unfolding compute_fee
compute_fee-IsFair release a f g l now hf hg hl =
    let (q, eq, fee) = fee_share a f hf in
    (
      breakdown release (pos a) q.value (pos a -ℤ q.value) (pos a -ℤ pos a) (pos f) q.residual now,
      rw (eq, self_sub (pos a), zero_text) refl,
      breakdown-IsFair release a a (pos f) q now (omega arith) fee,
    )
compute_fee-IsFair refund a f g l now hf hg hl = (
  breakdown refund (pos a) (pos 0) (pos 0 -ℤ pos 0) (pos a -ℤ pos 0) (pos f) (pos 0) now,
  rw (self_sub (pos 0), sub_zero (pos a), zero_text) refl,
  breakdown-IsFair refund a 0 (pos f) nothing now (omega arith) none_taken,
)
compute_fee-IsFair split a f g l now hf hg hl =
    let (q, lost, (v, r, ev, er, le, lt)) = loss_share a g l hg hl in
    let (t, eq, fee) = fee_share (a - v) f hf in
    (
      breakdown split (pos a) t.value (pos (a - v) -ℤ t.value) (pos a -ℤ pos (a - v)) (pos f)
          t.residual now,
      rw (lost, ev, pos-sub a v le, eq) refl,
      breakdown-IsFair split a (a - v) (pos f) t now (omega arith) fee,
    )
compute_fee-IsFair full_seller a f g l now hf hg hl =
    let (q, eq, fee) = fee_share a f hf in
    (
      breakdown full_seller (pos a) q.value (pos a -ℤ q.value) (pos a -ℤ pos a) (pos f) q.residual
          now,
      rw (eq, self_sub (pos a), zero_text) refl,
      breakdown-IsFair full_seller a a (pos f) q now (omega arith) fee,
    )
compute_fee-IsFair full_buyer a f g l now hf hg hl = (
  breakdown full_buyer (pos a) (pos 0) (pos 0 -ℤ pos 0) (pos a -ℤ pos 0) (pos f) (pos 0) now,
  rw (self_sub (pos 0), sub_zero (pos a), zero_text) refl,
  breakdown-IsFair full_buyer a 0 (pos f) nothing now (omega arith) none_taken,
)
