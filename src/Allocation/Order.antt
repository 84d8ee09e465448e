-- ===== src/Allocation/Order.antt =====
-- The order in which the leftover stroops are given away: the larger remainder first, and of equal
-- remainders the one that stands first.
use elite_work.Base.{
  ℕ, zero, suc, ◌+◌, ◌*◌, ◌%◌, ◌≤◌, ◌<◌, ◌≡◌, ◌⊎◌, inl, inr, refl, sym, ap, ◌∙◌, subst, true, false,
  Option, none, some, List, [], ◌∷◌, arith,
}
use elite_work.Base.Tests.{◌==◌, ==_iff, Bool-cases}
use elite_work.Base.Lists.{All, get_elem?}
use elite_work.Base.Int.{pos, ltb_ℤ}
use elite_work.Allocation.{Remainder, insert_desc, sort_desc}
use elite_work.Allocation.Shares.{rests}
use elite_work.Allocation.Distribution.{occurs, occurs_within, occurs-sort_desc}

insert_desc-keeps :
    (P : Remainder → Type 0) (r : Remainder) (xs : List Remainder)
    → P r
    → All P xs
    → All P (insert_desc r xs)
unfolding insert_desc
insert_desc-keeps P r [] h hs = (h, tt)
insert_desc-keeps P r (x ∷ xs) h hs = elim (Bool-cases (ltb_ℤ r.remainder x.remainder)) [
  | inl less ↦ rw less (hs.0, insert_desc-keeps P r xs h hs.1)
  | inr more ↦ rw more (h, hs)
]

sort_desc-keeps : (P : Remainder → Type 0) (xs : List Remainder) → All P xs → All P (sort_desc xs)
unfolding sort_desc
sort_desc-keeps P [] h = tt
sort_desc-keeps P (x ∷ xs) h = insert_desc-keeps P x (sort_desc xs) h.0 (sort_desc-keeps P xs h.1)

-- What holds at every index of a list holds at one that occurs.
All-occurs :
    (Q : ℕ → Type 0) (i : ℕ) (rs : List Remainder) → All (λ x. Q x.index) rs → 1 ≤ occurs i rs → Q i
All-occurs Q i [] h some_there = absurd (omega (arith, some_there))
All-occurs Q i (r ∷ rs) h some_there = elim (Bool-cases (r.index == i)) [
  | inl hit ↦ subst Q ((==_iff r.index i).0 hit) h.0
  | inr miss ↦ All-occurs Q i rs h.1 (ground (arith, miss, some_there))
]

-- The remainder of each index is given by `w`.
module _ (w : ℕ → ℕ) where
  abbrev pub IsOf : Remainder → Type 0
  IsOf r = r.remainder ≡ pos (w r.index)

  abbrev pub Ahead : ℕ → ℕ → Type 0
  Ahead i j = (w j ≤ w i) × ((w j < w i) ⊎ (i < j))

  abbrev pub IsSorted : List Remainder → Type 0
  IsSorted [] = Unit
  IsSorted (r ∷ rs) = All (λ x. Ahead r.index x.index) rs × IsSorted rs

  abbrev pub IsAscending : List Remainder → Type 0
  IsAscending [] = Unit
  IsAscending (r ∷ rs) = All (λ x. r.index < x.index) rs × IsAscending rs

  less_of :
      (r x : Remainder)
      → IsOf r
      → IsOf x
      → ((ltb_ℤ r.remainder x.remainder ≡ true → w r.index < w x.index)
          × (ltb_ℤ r.remainder x.remainder ≡ false → w x.index ≤ w r.index))
  less_of r x a b = rw (a, b) (ground arith)

  -- In front of an element and before its index, so in front of those behind it.
  All-Ahead :
      (i j : ℕ) (xs : List Remainder)
      → w j ≤ w i
      → All (λ x. Ahead j x.index) xs
      → All (λ x. i < x.index) xs
      → All (λ x. Ahead i x.index) xs
  All-Ahead i j [] more behind later = tt
  All-Ahead i j (x ∷ xs) more behind later =
      ((omega (arith, more, behind), inr later.0), All-Ahead i j xs more behind.1 later.1)

  insert_desc-IsSorted :
      (r : Remainder) (xs : List Remainder)
      → IsOf r
      → All IsOf xs
      → All (λ x. r.index < x.index) xs
      → IsSorted xs
      → IsSorted (insert_desc r xs)
  unfolding insert_desc
  insert_desc-IsSorted r [] a as_all later sorted = (tt, tt)
  insert_desc-IsSorted r (x ∷ xs) a as_all later sorted =
      let (less, more) = less_of r x a as_all.0 in
      elim (Bool-cases (ltb_ℤ r.remainder x.remainder)) [
        | inl e ↦
            let below = less e in
            rw e (
              insert_desc-keeps (λ y. Ahead x.index y.index) r xs (omega (arith, below), inl below)
                  sorted.0,
              insert_desc-IsSorted r xs a as_all.1 later.1 sorted.1,
            )
        | inr e ↦
            let above = more e in
            rw e
              (((above, inr later.0), All-Ahead r.index x.index xs above sorted.0 later.1), sorted)
      ]

  pub sort_desc-IsSorted :
      (xs : List Remainder) → All IsOf xs → IsAscending xs → IsSorted (sort_desc xs)
  unfolding sort_desc
  sort_desc-IsSorted [] a up = tt
  sort_desc-IsSorted (x ∷ xs) a up =
      insert_desc-IsSorted x (sort_desc xs) a.0 (sort_desc-keeps IsOf xs a.1)
        (sort_desc-keeps (λ y. x.index < y.index) xs up.0) (sort_desc-IsSorted xs a.1 up.1)

  -- An index among the first `k` is ahead of one that is there, but not among them.
  pub occurs_within-Ahead :
      (k i j : ℕ) (rs : List Remainder)
      → IsSorted rs
      → 1 ≤ occurs_within k j rs
      → occurs_within k i rs ≡ 0
      → 1 ≤ occurs i rs
      → Ahead j i
  occurs_within-Ahead zero i j rs sorted inside outside there = absurd (omega (arith, inside))
  occurs_within-Ahead (suc k) i j [] sorted inside outside there = absurd (omega (arith, inside))
  occurs_within-Ahead (suc k) i j (r ∷ rs) sorted inside outside there =
      elim (Bool-cases (r.index == i)) [
        | inl hit ↦ absurd (ground (arith, hit, outside))
        | inr miss ↦
            let behind : 1 ≤ occurs i rs = ground (arith, miss, there) in
            elim (Bool-cases (r.index == j)) [
              | inl own ↦
                  subst (λ n. Ahead n i) ((==_iff r.index j).0 own)
                    (All-occurs (Ahead r.index) i rs sorted.0 behind)
              | inr other ↦
                  occurs_within-Ahead k i j rs sorted.1 (ground (arith, other, inside))
                    (ground (arith, miss, outside)) behind
            ]
      ]

  rests-IsOf :
      (t i : ℕ) (ss : List ℕ)
      → ((k u : ℕ) → get_elem? ss k ≡ some u → w (i + k) ≡ t * u % 10_000)
      → All IsOf (rests t i ss)
  rests-IsOf t i [] h = tt
  rests-IsOf t i (s ∷ ss) h = (
    ap pos (sym (ap w (omega arith) ∙ h 0 s refl)),
    rests-IsOf t (suc i) ss (λ k u there. ap w (omega arith) ∙ h (suc k) u there),
  )

  rests-IsAscending : (t i : ℕ) (ss : List ℕ) → IsAscending (rests t i ss)
  rests-IsAscending t i [] = tt
  rests-IsAscending t i (s ∷ ss) =
      (above i (suc i) ss (omega arith), rests-IsAscending t (suc i) ss)
    where
      above : (n m : ℕ) (us : List ℕ) → n < m → All (λ x. n < x.index) (rests t m us)
      above n m [] h = tt
      above n m (u ∷ us) h = (h, above n (suc m) us (omega (arith, h)))

pub rests-has :
    (t i k u : ℕ) (ss : List ℕ) → get_elem? ss k ≡ some u → 1 ≤ occurs (i + k) (rests t i ss)
rests-has t i k u [] h = cc
rests-has t i zero u (s ∷ ss) h =
    let hit : (i == i + 0) ≡ true = (==_iff i (i + 0)).1 (omega arith) in rw hit (omega arith)
rests-has t i (suc k) u (s ∷ ss) h =
    let later : 1 ≤ occurs (i + suc k) (rests t (suc i) ss) =
      subst (λ n. 1 ≤ occurs n (rests t (suc i) ss)) (omega arith) (rests-has t (suc i) k u ss h) in
    omega (arith, later)

abbrev pub remainder_of : ℕ → Option ℕ → ℕ
remainder_of t none = 0
remainder_of t (some u) = t * u % 10_000

-- Of two shares, the one among the first `k` has the larger remainder, or an equal one and stands
-- in front.
pub rests-Ahead :
    (t k i j u v : ℕ) (ss : List ℕ)
    → get_elem? ss i ≡ some u
    → get_elem? ss j ≡ some v
    → 1 ≤ occurs_within k j (sort_desc (rests t 0 ss))
    → occurs_within k i (sort_desc (rests t 0 ss)) ≡ 0
    → (t * u % 10_000 ≤ t * v % 10_000) × ((t * u % 10_000 < t * v % 10_000) ⊎ (j < i))
rests-Ahead t k i j u v ss at_i at_j inside outside =
    let w : ℕ → ℕ = λ n. remainder_of t (get_elem? ss n) in
    let sorted =
      sort_desc-IsSorted w (rests t 0 ss)
        (rests-IsOf w t 0 ss (λ n x there. ap (λ m. w m) (omega arith) ∙ ap (remainder_of t) there))
        (rests-IsAscending w t 0 ss) in
    let there : 1 ≤ occurs i (sort_desc (rests t 0 ss)) =
      rw (occurs-sort_desc i (rests t 0 ss))
        (subst (λ n. 1 ≤ occurs n (rests t 0 ss)) (omega arith) (rests-has t 0 i u ss at_i)) in
    let ahead =
      occurs_within-Ahead w k i j (sort_desc (rests t 0 ss)) sorted inside outside there in
    subst (λ x. (x ≤ t * v % 10_000) × ((x < t * v % 10_000) ⊎ (j < i))) (ap (remainder_of t) at_i)
      (subst (λ x. (w i ≤ x) × ((w i < x) ⊎ (j < i))) (ap (remainder_of t) at_j) ahead)
