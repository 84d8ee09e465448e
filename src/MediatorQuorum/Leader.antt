-- ===== src/MediatorQuorum/Leader.antt =====
-- The outcome that leads: the heaviest one, and of equals the one that gives the seller least.
use elite_work.Base.{
  ℕ, ◌≤◌, ◌<◌, ◌≡◌, ◌≢◌, ◌⊎◌, inl, inr, refl, sym, ap, ◌∙◌, subst, true, some, arith, List, [], ◌∷◌,
}
use elite_work.Base.Tests.{◌==◌, Bool-cases}
use elite_work.Base.Lists.{All}
use elite_work.MediatorQuorum.{
  MediatorVote, OutcomeTally, add_vote, by_outcome, comes_first, insert_tally, sort_tallies,
  tally_votes, first_tally,
}
use elite_work.MediatorQuorum.Tally.{weight_for, recorded, recorded-tally_votes}

some-injective : {a b : OutcomeTally} → some a ≡ some b → a ≡ b
some-injective h = cc

abbrev IsOther : ℕ → OutcomeTally → Type 0
IsOther bps t = t.seller_gets_bps ≢ bps

abbrev AreDistinct : List OutcomeTally → Type 0
AreDistinct [] = Unit
AreDistinct (t ∷ ts) = All (IsOther t.seller_gets_bps) ts × AreDistinct ts

add_vote-IsOther :
    (bps : ℕ) (ts : List OutcomeTally) (v : MediatorVote)
    → v.seller_gets_bps ≢ bps
    → All (IsOther bps) ts
    → All (IsOther bps) (add_vote ts v)
unfolding add_vote
add_vote-IsOther bps [] v ne h = (ne, tt)
add_vote-IsOther bps (t ∷ ts) v ne h = elim (Bool-cases (t.seller_gets_bps == v.seller_gets_bps)) [
  | inl hit ↦ rw hit (h.0, h.1)
  | inr miss ↦ rw miss (h.0, add_vote-IsOther bps ts v ne h.1)
]

add_vote-AreDistinct :
    (ts : List OutcomeTally) (v : MediatorVote) → AreDistinct ts → AreDistinct (add_vote ts v)
unfolding add_vote
add_vote-AreDistinct [] v h = (tt, tt)
add_vote-AreDistinct (t ∷ ts) v h = elim (Bool-cases (t.seller_gets_bps == v.seller_gets_bps)) [
  | inl hit ↦ rw hit h
  | inr miss ↦ rw miss (
    add_vote-IsOther t.seller_gets_bps ts v (ground (arith, miss)) h.0,
    add_vote-AreDistinct ts v h.1,
  )
]

by_outcome-AreDistinct :
    (ts : List OutcomeTally) (votes : List MediatorVote)
    → AreDistinct ts
    → AreDistinct (by_outcome ts votes)
unfolding by_outcome
by_outcome-AreDistinct ts [] h = h
by_outcome-AreDistinct ts (v ∷ votes) h =
    by_outcome-AreDistinct (add_vote ts v) votes (add_vote-AreDistinct ts v h)

insert-All :
    (P : OutcomeTally → Type 0) (t : OutcomeTally) (ts : List OutcomeTally)
    → P t
    → All P ts
    → All P (insert_tally t ts)
unfolding insert_tally
insert-All P t [] ht h = (ht, tt)
insert-All P t (u ∷ ts) ht h = elim (Bool-cases (comes_first t u)) [
  | inl first ↦ rw first (ht, h)
  | inr later ↦ rw later (h.0, insert-All P t ts ht h.1)
]

insert-AreDistinct :
    (t : OutcomeTally) (ts : List OutcomeTally)
    → All (IsOther t.seller_gets_bps) ts
    → AreDistinct ts
    → AreDistinct (insert_tally t ts)
unfolding insert_tally
insert-AreDistinct t [] ne h = (tt, tt)
insert-AreDistinct t (u ∷ ts) ne h = elim (Bool-cases (comes_first t u)) [
  | inl first ↦ rw first (ne, h)
  | inr later ↦ rw later (
    insert-All (IsOther u.seller_gets_bps) t ts (λ e. ne.0 (sym e)) h.0,
    insert-AreDistinct t ts ne.1 h.1,
  )
]

abbrev IsSorted : List OutcomeTally → Type 0
IsSorted [] = Unit
IsSorted (t ∷ ts) = All (λ u. comes_first t u ≡ true) ts × IsSorted ts

first_of_first :
    (t u : OutcomeTally) (ts : List OutcomeTally)
    → comes_first t u ≡ true
    → All (λ w. comes_first u w ≡ true) ts
    → All (λ w. comes_first t w ≡ true) ts
first_of_first t u [] e h = tt
first_of_first t u (w ∷ ts) e h = (ground (arith, e, h.0), first_of_first t u ts e h.1)

insert-IsSorted :
    (t : OutcomeTally) (ts : List OutcomeTally) → IsSorted ts → IsSorted (insert_tally t ts)
unfolding insert_tally
insert-IsSorted t [] h = (tt, tt)
insert-IsSorted t (u ∷ ts) h = elim (Bool-cases (comes_first t u)) [
  | inl first ↦ rw first ((first, first_of_first t u ts first h.0), h)
  | inr later ↦ rw later (
    insert-All (λ w. comes_first u w ≡ true) t ts (ground (arith, later)) h.0,
    insert-IsSorted t ts h.1,
  )
]

sort-IsOther :
    (bps : ℕ) (ts : List OutcomeTally) → All (IsOther bps) ts → All (IsOther bps) (sort_tallies ts)
unfolding sort_tallies
sort-IsOther bps [] h = tt
sort-IsOther bps (t ∷ ts) h =
    insert-All (IsOther bps) t (sort_tallies ts) h.0 (sort-IsOther bps ts h.1)

sort-IsSorted :
    (ts : List OutcomeTally)
    → AreDistinct ts
    → AreDistinct (sort_tallies ts) × IsSorted (sort_tallies ts)
unfolding sort_tallies
sort-IsSorted [] h = (tt, tt)
sort-IsSorted (t ∷ ts) h =
    let (distinct, sorted) = sort-IsSorted ts h.1 in
    (
      insert-AreDistinct t (sort_tallies ts) (sort-IsOther t.seller_gets_bps ts h.0) distinct,
      insert-IsSorted t (sort_tallies ts) sorted,
    )

recorded_other : (bps : ℕ) (ts : List OutcomeTally) → All (IsOther bps) ts → recorded bps ts ≡ 0
recorded_other bps [] h = refl
recorded_other bps (t ∷ ts) h = ground (arith, h.0, recorded_other bps ts h.1)

-- An outcome of weight `w` comes behind the leader `t`.
abbrev pub IsBehind : OutcomeTally → (bps w : ℕ) → Type 0
IsBehind t bps w = (w < t.weight) ⊎ ((w ≡ t.weight) × (t.seller_gets_bps ≤ bps))

recorded-IsBehind :
    (t : OutcomeTally) (ts : List OutcomeTally) (bps : ℕ)
    → All (λ u. comes_first t u ≡ true) ts
    → AreDistinct ts
    → 0 < recorded bps ts
    → IsBehind t bps (recorded bps ts)
recorded-IsBehind t [] bps first distinct h = absurd (omega (arith, h))
recorded-IsBehind t (u ∷ ts) bps first distinct h = elim (Bool-cases (u.seller_gets_bps == bps)) [
  | inl hit ↦
      let e : u.seller_gets_bps ≡ bps = ground (arith, hit) in
      let alone : recorded u.seller_gets_bps ts ≡ 0 =
        recorded_other u.seller_gets_bps ts distinct.0 in
      let none_left : recorded bps ts ≡ 0 = sym (ap (λ b. recorded b ts) e) ∙ alone in
      ground (arith, first.0, hit, none_left)
  | inr miss ↦
      let rest : recorded bps (u ∷ ts) ≡ recorded bps ts = ground (arith, miss) in
      let behind = recorded-IsBehind t ts bps first.1 distinct.1 (omega (arith, rest, h)) in
      ground (arith, rest, behind)
]

leads :
    (t : OutcomeTally) (ts : List OutcomeTally)
    → AreDistinct (t ∷ ts)
    → IsSorted (t ∷ ts)
    → (recorded t.seller_gets_bps (t ∷ ts) ≡ t.weight)
      × ((bps : ℕ) → 0 < recorded bps (t ∷ ts) → IsBehind t bps (recorded bps (t ∷ ts)))
leads t ts distinct sorted =
    let own = recorded_other t.seller_gets_bps ts distinct.0 in
    (
      ground (arith, own),
      λ bps h. elim (Bool-cases (t.seller_gets_bps == bps)) [
        | inl hit ↦
            let e : t.seller_gets_bps ≡ bps = ground (arith, hit) in
            let alone : recorded bps ts ≡ 0 = sym (ap (λ b. recorded b ts) e) ∙ own in
            ground (arith, hit, alone)
        | inr miss ↦
            let behind = recorded-IsBehind t ts bps sorted.0 distinct.1 (ground (arith, miss, h)) in
            ground (arith, miss, behind)
      ],
    )

leader_of :
    (votes : List MediatorVote) (ts : List OutcomeTally) (leader : OutcomeTally)
    → tally_votes votes ≡ ts
    → AreDistinct ts × IsSorted ts
    → first_tally ts ≡ some leader
    → (weight_for leader.seller_gets_bps votes ≡ leader.weight)
      × ((bps : ℕ) → 0 < weight_for bps votes → IsBehind leader bps (weight_for bps votes))
leader_of votes [] leader same h e = cc
leader_of votes (t ∷ ts) leader same h e =
    let same_weight : (bps : ℕ) → recorded bps (t ∷ ts) ≡ weight_for bps votes =
      λ bps. sym (ap (recorded bps) same) ∙ recorded-tally_votes bps votes in
    let (own, others) = leads t ts (h.0.0, h.0.1) (h.1.0, h.1.1) in
    subst
      (λ u.
        (weight_for u.seller_gets_bps votes ≡ u.weight)
        × ((bps : ℕ) → 0 < weight_for bps votes → IsBehind u bps (weight_for bps votes)))
      (some-injective e)
      (
        sym (same_weight t.seller_gets_bps) ∙ own,
        λ bps positive.
            subst (λ w. 0 < w → IsBehind t bps w) (same_weight bps) (others bps) positive,
      )

-- The leader of the tally has the weight of the votes for its outcome. Every other outcome that
-- carries weight is lighter, or as heavy and gives the seller no less.
pub tally_votes-leader :
    (votes : List MediatorVote) (leader : OutcomeTally)
    → first_tally (tally_votes votes) ≡ some leader
    → (weight_for leader.seller_gets_bps votes ≡ leader.weight)
      × ((bps : ℕ) → 0 < weight_for bps votes → IsBehind leader bps (weight_for bps votes))
unfolding tally_votes
tally_votes-leader votes leader e =
    leader_of votes (tally_votes votes) leader refl
      (sort-IsSorted (by_outcome [] votes) (by_outcome-AreDistinct [] votes tt)) e
