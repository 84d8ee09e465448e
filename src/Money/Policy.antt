-- ===== src/Money/Policy.antt =====
-- What `divideWithPolicy` returns, under each rounding policy.
use elite_work.Base.{ℕ, true, false, ◌≢◌, ◌*◌, ◌%◌, ◌/◌, ◌/◌, ◌≤◌, ◌<◌, ◌≡◌, refl, inl, inr, arith}
use elite_work.Base.Int.{
  ℤ, pos, negsuc, abs, eqb_ℤ, pos_part, -ℤ_parts, +ℤ_parts, ◌+ℤ◌, ◌-ℤ◌, ◌*ℤ◌, ◌/ℤ◌, ◌≤ℤ◌, ◌<ℤ◌,
  int_laws, pos-mul, eq_of_parts, up_mul, down_mul, pred_mul, div_trunc_lem, div_trunc_sign,
}
use elite_work.Base.Tests.{Bool-cases}
use elite_work.Base.Outcome.{ok, throw}
use elite_work.Money.{
  RoundingPolicy, trunc, floor, ceil, half_up, half_even, DivisionResult, denominator_not_positive,
  negative_bps, bps_divisor, apply_bps, step_of, twice_remainder, rounded, quotient,
  divide_with_policy,
}

-- The quotient has the residual that the policy allows.
abbrev pub Respects : RoundingPolicy → (numerator value residual denominator : ℤ) → Type 0
Respects trunc n v r d = (pos 0 ≤ℤ n → pos 0 ≤ℤ r) × (n ≤ℤ pos 0 → r ≤ℤ pos 0)
Respects floor n v r d = pos 0 ≤ℤ r
Respects ceil n v r d = r ≤ℤ pos 0
Respects half_up n v r d =
    (2 * abs r ≤ abs d)
    × (2 * abs r ≡ abs d → (pos 0 ≤ℤ n → r ≤ℤ pos 0) × (n ≤ℤ pos 0 → pos 0 ≤ℤ r))
Respects half_even n v r d = (2 * abs r ≤ abs d) × (2 * abs r ≡ abs d → abs v % 2 ≡ 0)

-- `truncated % 2n === 0n` tells the even integers.
even_iff :
    (t : ℤ)
    → (eqb_ℤ (t -ℤ (t /ℤ pos 2) *ℤ pos 2) (pos 0) ≡ true → abs t % 2 ≡ 0)
      × (eqb_ℤ (t -ℤ (t /ℤ pos 2) *ℤ pos 2) (pos 0) ≡ false → abs t % 2 ≡ 1)
unfolding ◌-ℤ◌ ◌*ℤ◌ ◌/ℤ◌
even_iff (pos t) = ground arith
even_iff (negsuc t) = ground arith

twice_remainder_lem : (r : ℤ) → twice_remainder r ≡ pos (2 * abs r)
unfolding twice_remainder ◌*ℤ◌
twice_remainder_lem (pos r) = ground arith
twice_remainder_lem (negsuc r) = ground arith

-- A nonzero remainder below the denominator, with the sign of the dividend, is rounded as the
-- policy says.
module _ (n t : ℤ) (d : ℕ) where
  abbrev left : ℤ → ℤ
  left v = n -ℤ v *ℤ pos d

  abbrev result : RoundingPolicy → ℤ → ℤ
  result p r = rounded p t r (step_of r) (twice_remainder r) (pos d)

  rounded-Respects :
      (p : RoundingPolicy) (r : ℤ)
      → r ≡ left t
      → r ≢ pos 0
      → abs r < d
      → (pos 0 ≤ℤ n → pos 0 ≤ℤ r)
      → (n ≤ℤ pos 0 → r ≤ℤ pos 0)
      → (abs (left (result p r)) < d) × Respects p n (result p r) (left (result p r)) (pos d)
  unfolding rounded step_of
  rounded-Respects trunc r e ne small above below = rw (← e) (small, (above, below))
  rounded-Respects floor r e ne small above below =
      ground
        (arith, -ℤ_parts n (t *ℤ pos d), -ℤ_parts n ((t -ℤ pos 1) *ℤ pos d), pred_mul t (pos d))
  rounded-Respects ceil r e ne small above below =
      ground (arith, -ℤ_parts n (t *ℤ pos d), -ℤ_parts n ((t +ℤ pos 1) *ℤ pos d), up_mul t (pos d))
  rounded-Respects half_up (pos r) e ne small above below = rw twice_remainder_lem (
      ground (arith, -ℤ_parts n (t *ℤ pos d), -ℤ_parts n ((t +ℤ pos 1) *ℤ pos d), up_mul t (pos d)))
  rounded-Respects half_up (negsuc r) e ne small above below = rw twice_remainder_lem (
      ground
        (arith, -ℤ_parts n (t *ℤ pos d), -ℤ_parts n ((t +ℤ negsuc 0) *ℤ pos d), down_mul t (pos d)))
  rounded-Respects half_even (pos r) e ne small above below = rw twice_remainder_lem (
      ground (
        arith,
        -ℤ_parts n (t *ℤ pos d),
        -ℤ_parts n ((t +ℤ pos 1) *ℤ pos d),
        up_mul t (pos d),
        even_iff t,
        +ℤ_parts t (pos 1),
      ))
  rounded-Respects half_even (negsuc r) e ne small above below = rw twice_remainder_lem (
      ground (
        arith,
        -ℤ_parts n (t *ℤ pos d),
        -ℤ_parts n ((t +ℤ negsuc 0) *ℤ pos d),
        down_mul t (pos d),
        even_iff t,
        +ℤ_parts t (negsuc 0),
      ))

-- A division: exact up to a residual smaller than the denominator, rounded by the policy.
pub record IsDivision (p : RoundingPolicy) (n : ℤ) (d : ℕ) (q : DivisionResult) : Type 0 where
  pub exact : n ≡ q.value *ℤ pos d +ℤ q.residual
  pub kept : q.denominator ≡ pos d
  pub small : abs q.residual < d
  pub respects : Respects p n q.value q.residual (pos d)

pub quotient-IsDivision :
    (p : RoundingPolicy) (n : ℤ) (d : ℕ) → 0 < d → IsDivision p n d (quotient n (pos d) p)
unfolding quotient
quotient-IsDivision p n d h = elim (Bool-cases (eqb_ℤ r (pos 0))) [
  | inl zero_rest ↦ rw zero_rest (record {
    exact = ground (
      arith,
      -ℤ_parts n (t *ℤ pos d),
      +ℤ_parts (t *ℤ pos d) (pos 0),
      eq_of_parts n (t *ℤ pos d +ℤ pos 0),
    );
    kept = refl;
    small = h;
    respects = exact_Respects p;
  })
  | inr more ↦
      let nonzero : r ≢ pos 0 = λ e. ground (arith, e, more) in
      let sized =
        rounded-Respects n t d p r refl nonzero (div_trunc_lem n d h) (div_trunc_sign n d h).0
          (div_trunc_sign n d h).1 in
      rw more (record { exact = omega int_laws; kept = refl; small = sized.0; respects = sized.1 })
]
  where
    t : ℤ
    t = n /ℤ pos d

    r : ℤ
    r = n -ℤ t *ℤ pos d

    exact_Respects : (p : RoundingPolicy) → Respects p n t (pos 0) (pos d)
    exact_Respects trunc = omega arith
    exact_Respects floor = omega arith
    exact_Respects ceil = omega arith
    exact_Respects half_up = omega arith
    exact_Respects half_even = ground arith

-- A positive denominator divides, exactly up to a residual below it and rounded as the policy
-- says; any other denominator is refused.
pub divide_with_policy-IsDivision :
    (p : RoundingPolicy) (n d : ℤ)
    → (pos 1 ≤ℤ d
        → (divide_with_policy n d p ≡ ok (quotient n d p))
          × IsDivision p n (pos_part d) (quotient n d p))
      × (d ≤ℤ pos 0 → divide_with_policy n d p ≡ throw denominator_not_positive)
unfolding divide_with_policy
divide_with_policy-IsDivision p n (pos d) =
    (λ h. (ground arith, quotient-IsDivision p n d (omega arith)), λ h. ground arith)
divide_with_policy-IsDivision p n (negsuc d) = (λ h. absurd (omega arith), λ h. ground arith)

-- A ratio that is not negative is applied by one division; a negative one is refused.
pub apply_bps-quotient :
    (p : RoundingPolicy) (amount bps : ℤ)
    → (pos 0 ≤ℤ bps → apply_bps amount bps p ≡ ok (quotient (amount *ℤ bps) bps_divisor p))
      × (bps <ℤ pos 0 → apply_bps amount bps p ≡ throw negative_bps)
unfolding apply_bps divide_with_policy
apply_bps-quotient p amount (pos b) = (λ h. ground arith, λ h. absurd (omega arith))
apply_bps-quotient p amount (negsuc b) = (λ h. absurd (omega arith), λ h. ground arith)

-- Truncating division of numbers that are not negative is that of the natural numbers.
pub quotient-trunc :
    (n d : ℕ)
    → 0 < d
    → quotient (pos n) (pos d) trunc
      ≡ record { value = pos (n / d); residual = pos (n % d); denominator = pos d }
unfolding quotient ◌/ℤ◌
quotient-trunc n d h = rw rest_lem (ground arith)
  where
    rest_lem : pos n -ℤ pos (n / d) *ℤ pos d ≡ pos (n % d)
    rest_lem = rw (pos-mul (n / d) d) (
        ground (
          arith,
          -ℤ_parts (pos n) (pos (n / d * d)),
          eq_of_parts (pos n -ℤ pos (n / d * d)) (pos (n % d)),
        ))
