-- ===== src/Allocation/ZeroDust.antt =====
-- The guarantees of the largest-remainder method.
use mathlib.Core.Path.{ap₂}
use elite_work.Base.{
  ℕ, zero, suc, ◌+◌, ◌-◌, ◌*◌, ◌/◌, ◌≤◌, ◌<◌, ◌%◌, ◌≡◌, ◌⊎◌, refl, sym, ap, ◌∙◌, false, Option,
  List, [], ◌∷◌, some, arith,
}
use elite_work.Base.Lists.{length, any, get_elem?}
use elite_work.Base.Int.{ℤ, pos, negsuc, ◌-ℤ◌, ltb_ℤ, int_laws}
use elite_work.Base.Outcome.{ok}
use elite_work.Allocation.{
  AllocationInput, AllocationResult, sum_from, sort_desc, allocate, largest_remainder_allocation,
}
use elite_work.Allocation.Shares.{
  naturals, sum, sum_from-naturals, naturals_of, floors, rests, rest_sum, shares_from-naturals,
  floors_rests, rest_sum-le,
}
use elite_work.Allocation.Distribution.{
  give, occurs_within, occurs_within-le, occurs-sort_desc, sort_desc-All, length-sort_desc,
  rests-occurs, rests-All, length-rests, distribute-naturals, sum-give, get_elem?-give,
}
use elite_work.Allocation.Order.{rests-Ahead}

module _ (t : ℕ) (ss : List ℕ) (whole : sum ss ≡ 10_000) where
  abbrev left : ℕ
  left = t - sum (floors t ss)

  left_lem : (sum (floors t ss) ≤ t) × (left * 10_000 ≡ rest_sum t ss) × (left ≤ length ss)
  left_lem = omega (arith, floors_rests t ss, rest_sum-le t ss, ap (λ n. t * n) whole)

  abbrev given : List ℕ
  given = give left (sort_desc (rests t 0 ss)) (floors t ss)

  length-floors : (us : List ℕ) → length (floors t us) ≡ length us
  length-floors [] = refl
  length-floors (u ∷ us) = ap suc (length-floors us)

  sum-given : sum given ≡ t
  sum-given = omega (
    arith,
    left_lem,
    sum-give left (sort_desc (rests t 0 ss)) (floors t ss)
        (rw (length-sort_desc (rests t 0 ss), length-rests t 0 ss) (left_lem.2))
        (rw (length-floors ss)
          (sort_desc-All (length ss) (rests t 0 ss) (rests-All t 0 (length ss) ss (omega arith)))),
  )

  allocate-given : (allocate (pos t) (naturals ss)).allocated ≡ naturals given
  unfolding allocate
  allocate-given =
      let leftover : pos t -ℤ pos (sum (floors t ss)) ≡ pos left = omega (int_laws, left_lem) in
      rw (shares_from-naturals t 0 ss, leftover) (distribute-naturals left _ (floors t ss))

  allocate-sum : (allocate (pos t) (naturals ss)).sum ≡ pos t
  unfolding allocate
  allocate-sum =
      ap (sum_from (pos 0)) allocate-given
      ∙ sum_from-naturals 0 given
      ∙ ap pos (omega (arith, sum-given))

  get_elem?-floors :
      (us : List ℕ) (j u : ℕ)
      → get_elem? us j ≡ some u
      → get_elem? (floors t us) j ≡ some (t * u / 10_000)
  get_elem?-floors [] j u h = cc
  get_elem?-floors (x ∷ us) zero u h = ground arith
  get_elem?-floors (x ∷ us) (suc j) u h = get_elem?-floors us j u h

  bonus : ℕ → ℕ
  bonus j = occurs_within left j (sort_desc (rests t 0 ss))

  bonus-le : (j : ℕ) → bonus j ≤ 1
  unfolding bonus
  bonus-le j = omega (
    arith,
    occurs_within-le left j (sort_desc (rests t 0 ss)),
    occurs-sort_desc j (rests t 0 ss),
    rests-occurs t 0 j ss,
  )

  given_lem :
      (j u : ℕ) → get_elem? ss j ≡ some u → get_elem? given j ≡ some (t * u / 10_000 + bonus j)
  unfolding bonus
  given_lem j u h =
      get_elem?-give left (sort_desc (rests t 0 ss)) (floors t ss) j (get_elem?-floors ss j u h)

  given-near :
      (j u : ℕ)
      → get_elem? ss j ≡ some u
      → (a : ℕ) × (get_elem? given j ≡ some a)
        × (t * u < a * 10_000 + 10_000)
        × (a * 10_000 ≤ t * u + 10_000)
  unfolding bonus
  given-near j u h =
      (t * u / 10_000 + bonus j, given_lem j u h, omega arith, omega (arith, bonus-le j))

  given-largest :
      (i j u v : ℕ)
      → get_elem? ss i ≡ some u
      → get_elem? ss j ≡ some v
      → get_elem? given i ≡ some (t * u / 10_000)
      → get_elem? given j ≡ some (t * v / 10_000 + 1)
      → (t * u % 10_000 ≤ t * v % 10_000) × ((t * u % 10_000 < t * v % 10_000) ⊎ (j < i))
  unfolding bonus
  given-largest i j u v at_i at_j bare raised =
      let none_given : t * u / 10_000 + bonus i ≡ t * u / 10_000 =
        some_injective (sym (given_lem i u at_i) ∙ bare) in
      let one_given : t * v / 10_000 + bonus j ≡ t * v / 10_000 + 1 =
        some_injective (sym (given_lem j v at_j) ∙ raised) in
      rests-Ahead t left i j u v ss at_i at_j (omega (arith, one_given)) (omega (arith, none_given))
    where
      some_injective : {a b : ℕ} → Path (Option ℕ) (some a) (some b) → a ≡ b
      some_injective h = cc

get_elem?-naturals :
    (xs : List ℕ) (j : ℕ) {a : ℕ}
    → get_elem? xs j ≡ some a
    → get_elem? (naturals xs) j ≡ some (pos a)
get_elem?-naturals [] j h = cc
get_elem?-naturals (x ∷ xs) zero h = ground arith
get_elem?-naturals (x ∷ xs) (suc j) h = get_elem?-naturals xs j h

-- A split of `t` by the ratios `ss`: the parts add up to `t`, each is within one stroop of its exact
-- share, and a part that was rounded up had a larger fraction than one that was rounded down, or an
-- equal one and stands in front of it.
pub record IsSplit (t : ℕ) (ss : List ℕ) (r : AllocationResult) : Type 0 where
  pub parts : List ℕ
  pub allocated : r.allocated ≡ naturals parts
  pub no_dust : sum parts ≡ t
  pub reported : r.sum ≡ pos t
  pub near :
      (j u : ℕ)
      → get_elem? ss j ≡ some u
      → (a : ℕ) × (get_elem? parts j ≡ some a)
        × (t * u < a * 10_000 + 10_000)
        × (a * 10_000 ≤ t * u + 10_000)
  pub largest :
      (i j u v : ℕ)
      → get_elem? ss i ≡ some u
      → get_elem? ss j ≡ some v
      → get_elem? parts i ≡ some (t * u / 10_000)
      → get_elem? parts j ≡ some (t * v / 10_000 + 1)
      → (t * u % 10_000 ≤ t * v % 10_000) × ((t * u % 10_000 < t * v % 10_000) ⊎ (j < i))

allocate-IsSplit :
    (t : ℕ) (ss : List ℕ) → sum ss ≡ 10_000 → IsSplit t ss (allocate (pos t) (naturals ss))
allocate-IsSplit t ss h = record {
  parts = given t ss h;
  allocated = allocate-given t ss h;
  no_dust = sum-given t ss h;
  reported = allocate-sum t ss h;
  near = given-near t ss h;
  largest = given-largest t ss h;
}

natural_of : (z : ℤ) → ltb_ℤ z (pos 0) ≡ false → (t : ℕ) × (z ≡ pos t)
natural_of (pos t) h = (t, refl)
natural_of (negsuc t) h = absurd (ground arith)

no_negative : (ss : List ℕ) → any (λ s. ltb_ℤ s (pos 0)) (naturals ss) ≡ false
no_negative [] = refl
no_negative (s ∷ ss) = ground (arith, no_negative ss)

-- Whatever the input, an accepted split has a total and ratios that are not negative, and ratios that
-- add up to 100%. Its parts add up to the total, each is within one stroop of its exact share, and a
-- part that was rounded up had a larger fraction than any that was rounded down, or an equal one and
-- stands in front of it.
pub largest_remainder_allocation-IsSplit :
    (input : AllocationInput) (r : AllocationResult)
    → largest_remainder_allocation input ≡ ok r
    → (t : ℕ) × (ss : List ℕ) × (input.total ≡ pos t)
      × (input.shares_bps ≡ naturals ss)
      × (sum ss ≡ 10_000)
      × IsSplit t ss r
unfolding largest_remainder_allocation
largest_remainder_allocation-IsSplit input r h =
    let (t, total_is) = natural_of input.total (ground arith) in
    let (ss, shares_are) = naturals_of input.shares_bps (ground arith) in
    let whole : sum ss ≡ 10_000 =
      ground (arith, shares_are, sum_from-naturals 0 ss, ap (sum_from (pos 0)) shares_are) in
    let made : r ≡ allocate (pos t) (naturals ss) =
      ground (arith, ap₂ allocate total_is shares_are) in
    (t, ss, total_is, shares_are, whole, rw made (allocate-IsSplit t ss whole))

-- Every non-negative total is split by every list of ratios that add up to 100%.
pub largest_remainder_allocation_accepts :
    (t : ℕ) (ss : List ℕ)
    → sum ss ≡ 10_000
    → (r : AllocationResult) × (largest_remainder_allocation
          (record { total = pos t; shares_bps = naturals ss })
        ≡ ok r)
      × IsSplit t ss r
unfolding largest_remainder_allocation
largest_remainder_allocation_accepts t ss h = (
  allocate (pos t) (naturals ss),
  ground (arith, sum_from-naturals 0 ss, no_negative ss),
  allocate-IsSplit t ss h,
)
