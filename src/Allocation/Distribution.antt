-- ===== src/Allocation/Distribution.antt =====
-- Step 2: each leftover stroop goes to one share, and no share gets two.
use elite_work.Base.{ℕ, zero, suc, ◌+◌, ◌≤◌, ◌<◌, ◌≡◌, refl, ap, ◌∙◌, List, [], ◌∷◌, some, arith}
use elite_work.Base.Tests.{◌==◌, if◌then◌else◌}
use elite_work.Base.Lists.{length, All, get_elem?}
use elite_work.Base.Int.{pos, ◌-ℤ◌, int_laws, pos-add}
use elite_work.Allocation.{Remainder, insert_desc, sort_desc, add_at, distribute}
use elite_work.Allocation.Shares.{naturals, sum, rests}

-- How often an index stands in a list of remainders, and among its first `k`.
abbrev pub occurs : ℕ → List Remainder → ℕ
occurs i [] = 0
occurs i (r ∷ rs) = (if r.index == i then 1 else 0) + occurs i rs

abbrev pub occurs_within : ℕ → ℕ → List Remainder → ℕ
occurs_within zero i rs = 0
occurs_within (suc k) i [] = 0
occurs_within (suc k) i (r ∷ rs) = (if r.index == i then 1 else 0) + occurs_within k i rs

abbrev pub InBounds : ℕ → Remainder → Type 0
InBounds n r = r.index < n

-- Sorting keeps the elements.
occurs-insert_desc :
    (i : ℕ) (r : Remainder) (xs : List Remainder) → occurs i (insert_desc r xs) ≡ occurs i (r ∷ xs)
unfolding insert_desc
occurs-insert_desc i r [] = refl
occurs-insert_desc i r (x ∷ xs) = ground (arith, occurs-insert_desc i r xs)

pub occurs-sort_desc : (i : ℕ) (xs : List Remainder) → occurs i (sort_desc xs) ≡ occurs i xs
unfolding sort_desc
occurs-sort_desc i [] = refl
occurs-sort_desc i (x ∷ xs) =
    omega (arith, occurs-insert_desc i x (sort_desc xs), occurs-sort_desc i xs)

insert_desc-All :
    (n : ℕ) (r : Remainder) (xs : List Remainder)
    → r.index < n
    → All (InBounds n) xs
    → All (InBounds n) (insert_desc r xs)
unfolding insert_desc
insert_desc-All n r [] h hs = (h, tt)
insert_desc-All n r (x ∷ xs) h hs = ground (arith, insert_desc-All n r xs h hs.1)

pub sort_desc-All :
    (n : ℕ) (xs : List Remainder) → All (InBounds n) xs → All (InBounds n) (sort_desc xs)
unfolding sort_desc
sort_desc-All n [] h = tt
sort_desc-All n (x ∷ xs) h = insert_desc-All n x (sort_desc xs) h.0 (sort_desc-All n xs h.1)

length-insert_desc :
    (r : Remainder) (xs : List Remainder) → length (insert_desc r xs) ≡ suc (length xs)
unfolding insert_desc
length-insert_desc r [] = refl
length-insert_desc r (x ∷ xs) = ground (arith, length-insert_desc r xs)

pub length-sort_desc : (xs : List Remainder) → length (sort_desc xs) ≡ length xs
unfolding sort_desc
length-sort_desc [] = refl
length-sort_desc (x ∷ xs) = length-insert_desc x (sort_desc xs) ∙ ap suc (length-sort_desc xs)

-- The remainders of step 1 carry the indices from `i` on, each once.
pub rests-occurs-below : (t i j : ℕ) (ss : List ℕ) → j < i → occurs j (rests t i ss) ≡ 0
rests-occurs-below t i j [] h = refl
rests-occurs-below t i j (s ∷ ss) h = ground (arith, rests-occurs-below t (suc i) j ss)

pub rests-occurs : (t i j : ℕ) (ss : List ℕ) → occurs j (rests t i ss) ≤ 1
rests-occurs t i j [] = omega arith
rests-occurs t i j (s ∷ ss) =
    ground (arith, rests-occurs t (suc i) j ss, rests-occurs-below t (suc i) j ss)

pub rests-All : (t i n : ℕ) (ss : List ℕ) → i + length ss ≤ n → All (InBounds n) (rests t i ss)
rests-All t i n [] h = tt
rests-All t i n (s ∷ ss) h = (omega arith, rests-All t (suc i) n ss (omega arith))

pub length-rests : (t i : ℕ) (ss : List ℕ) → length (rests t i ss) ≡ length ss
length-rests t i [] = refl
length-rests t i (s ∷ ss) = ap suc (length-rests t (suc i) ss)

-- One stroop more at an index.
abbrev pub bump : ℕ → List ℕ → List ℕ
bump i [] = []
bump zero (x ∷ xs) = suc x ∷ xs
bump (suc i) (x ∷ xs) = x ∷ bump i xs

add_at-naturals : (i : ℕ) (xs : List ℕ) → add_at i (naturals xs) ≡ naturals (bump i xs)
unfolding add_at
add_at-naturals i [] = refl
add_at-naturals zero (x ∷ xs) = rw (pos-add x 1) (ground arith)
add_at-naturals (suc i) (x ∷ xs) = ap (λ l. pos x ∷ l) (add_at-naturals i xs)

abbrev pub give : ℕ → List Remainder → List ℕ → List ℕ
give zero rs xs = xs
give (suc k) [] xs = xs
give (suc k) (r ∷ rs) xs = give k rs (bump r.index xs)

pub distribute-naturals :
    (k : ℕ) (rs : List Remainder) (xs : List ℕ)
    → distribute (pos k) rs (naturals xs) ≡ naturals (give k rs xs)
unfolding distribute
distribute-naturals zero [] xs = refl
distribute-naturals (suc k) [] xs = refl
distribute-naturals zero (r ∷ rs) xs = refl
distribute-naturals (suc k) (r ∷ rs) xs =
    let fewer : pos (suc k) -ℤ pos 1 ≡ pos k = omega int_laws in
    let step =
      ap (λ n. distribute n rs (add_at r.index (naturals xs))) fewer
      ∙ ap (distribute (pos k) rs) (add_at-naturals r.index xs)
      ∙ distribute-naturals k rs (bump r.index xs) in
    ground (arith, step)

sum-bump : (i : ℕ) (xs : List ℕ) → i < length xs → sum (bump i xs) ≡ suc (sum xs)
sum-bump i [] h = elim h [ ]
sum-bump zero (x ∷ xs) h = omega arith
sum-bump (suc i) (x ∷ xs) h = omega (arith, sum-bump i xs)

length-bump : (i : ℕ) (xs : List ℕ) → length (bump i xs) ≡ length xs
length-bump i [] = refl
length-bump zero (x ∷ xs) = refl
length-bump (suc i) (x ∷ xs) = ap suc (length-bump i xs)

-- All of the stroops are given away, as long as there are enough shares.
pub sum-give :
    (k : ℕ) (rs : List Remainder) (xs : List ℕ)
    → k ≤ length rs
    → All (InBounds (length xs)) rs
    → sum (give k rs xs) ≡ sum xs + k
sum-give zero rs xs h b = omega arith
sum-give (suc k) [] xs h b = absurd (omega arith)
sum-give (suc k) (r ∷ rs) xs h b = omega (
  arith,
  sum-bump r.index xs b.0,
  sum-give k rs (bump r.index xs) (omega arith) (rw (length-bump r.index xs) b.1),
)

-- Each share gets one stroop for each time its index stands among the first `k`.
get_elem?-bump :
    (i j : ℕ) (xs : List ℕ) {x : ℕ}
    → get_elem? xs j ≡ some x
    → get_elem? (bump i xs) j ≡ some (x + (if i == j then 1 else 0))
get_elem?-bump i j [] h = cc
get_elem?-bump zero zero (x ∷ xs) h = ground arith
get_elem?-bump zero (suc j) (x ∷ xs) h = ground arith
get_elem?-bump (suc i) zero (x ∷ xs) h = ground arith
get_elem?-bump (suc i) (suc j) (x ∷ xs) h = ground (arith, get_elem?-bump i j xs h)

pub get_elem?-give :
    (k : ℕ) (rs : List Remainder) (xs : List ℕ) (j : ℕ) {x : ℕ}
    → get_elem? xs j ≡ some x
    → get_elem? (give k rs xs) j ≡ some (x + occurs_within k j rs)
get_elem?-give zero rs xs j h = h ∙ ap some (omega arith)
get_elem?-give (suc k) [] xs j h = h ∙ ap some (omega arith)
get_elem?-give (suc k) (r ∷ rs) xs j h =
    get_elem?-give k rs (bump r.index xs) j (get_elem?-bump r.index j xs h) ∙ ap some (omega arith)

pub occurs_within-le : (k j : ℕ) (rs : List Remainder) → occurs_within k j rs ≤ occurs j rs
occurs_within-le zero j rs = omega arith
occurs_within-le (suc k) j [] = omega arith
occurs_within-le (suc k) j (r ∷ rs) = omega (arith, occurs_within-le k j rs)
