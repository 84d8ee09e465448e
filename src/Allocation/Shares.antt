-- ===== src/Allocation/Shares.antt =====
-- Step 1 on amounts that are not negative: floors, and remainders that make up what they leave.
use elite_work.Base.{
  ℕ, suc, ◌+◌, ◌*◌, ◌/◌, ◌%◌, ◌≤◌, ◌≡◌, refl, ap, ◌∙◌, false, List, [], ◌∷◌, arith,
}
use elite_work.Base.Lists.{length, any}
use elite_work.Base.Int.{
  ℤ, pos, negsuc, ◌-ℤ◌, ◌*ℤ◌, ◌/ℤ◌, ltb_ℤ, pos-mul, pos-add, -ℤ_parts, eq_of_parts,
}
use elite_work.Allocation.{Remainder, bps_divisor, sum_from, shares_from}

-- Numbers as integers.
abbrev pub naturals : List ℕ → List ℤ
naturals [] = []
naturals (x ∷ xs) = pos x ∷ naturals xs

abbrev pub sum : List ℕ → ℕ
sum [] = 0
sum (x ∷ xs) = x + sum xs

pub sum_from-naturals : (n : ℕ) (xs : List ℕ) → sum_from (pos n) (naturals xs) ≡ pos (n + sum xs)
unfolding sum_from
sum_from-naturals n [] = ap pos (omega arith)
sum_from-naturals n (x ∷ xs) =
    ap (λ a. sum_from a (naturals xs)) (pos-add n x)
    ∙ sum_from-naturals (n + x) xs
    ∙ ap pos (omega arith)

-- A list with no negative number is one of naturals.
pub naturals_of :
    (xs : List ℤ) → any (λ s. ltb_ℤ s (pos 0)) xs ≡ false → (ns : List ℕ) × (xs ≡ naturals ns)
naturals_of [] h = ([], refl)
naturals_of (pos x ∷ xs) h =
    let (ns, e) = naturals_of xs (ground arith) in (x ∷ ns, ap (λ l. pos x ∷ l) e)
naturals_of (negsuc x ∷ xs) h = absurd (ground arith)

abbrev pub floors : ℕ → List ℕ → List ℕ
floors t [] = []
floors t (s ∷ ss) = t * s / 10_000 ∷ floors t ss

abbrev pub rests : ℕ → ℕ → List ℕ → List Remainder
rests t i [] = []
rests t i (s ∷ ss) = record { index = i; remainder = pos (t * s % 10_000) } ∷ rests t (suc i) ss

abbrev pub rest_sum : ℕ → List ℕ → ℕ
rest_sum t [] = 0
rest_sum t (s ∷ ss) = t * s % 10_000 + rest_sum t ss

abbrev pub products : ℕ → List ℕ → List ℤ
products t [] = []
products t (s ∷ ss) = pos (t * s) ∷ products t ss

rest_lem : (n : ℕ) → pos n -ℤ pos (n / 10_000) *ℤ bps_divisor ≡ pos (n % 10_000)
rest_lem n = rw (pos-mul (n / 10_000) 10_000) (
    ground (
      arith,
      -ℤ_parts (pos n) (pos (n / 10_000 * 10_000)),
      eq_of_parts (pos n -ℤ pos (n / 10_000 * 10_000)) (pos (n % 10_000)),
    ))

pub shares_from-naturals :
    (t i : ℕ) (ss : List ℕ)
    → shares_from (pos t) i (naturals ss) ≡ record {
      exact = products t ss;
      floored = naturals (floors t ss);
      remainders = rests t i ss;
      assigned_sum = pos (sum (floors t ss));
    }
unfolding shares_from ◌/ℤ◌
shares_from-naturals t i [] = refl
shares_from-naturals t i (s ∷ ss) =
    rw (pos-mul t s, shares_from-naturals t (suc i) ss, rest_lem (t * s), pos-add) refl

-- What the floors leave of the total is what the remainders make up.
pub floors_rests : (t : ℕ) (ss : List ℕ) → t * sum ss ≡ sum (floors t ss) * 10_000 + rest_sum t ss
floors_rests t [] = omega arith
floors_rests t (s ∷ ss) = omega (arith, floors_rests t ss)

pub rest_sum-le : (t : ℕ) (ss : List ℕ) → rest_sum t ss ≤ 9_999 * length ss
rest_sum-le t [] = omega arith
rest_sum-le t (s ∷ ss) = omega (arith, rest_sum-le t ss)
