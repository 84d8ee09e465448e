-- ===== src/MediatorQuorum/Tally.antt =====
-- The tally against the votes: what each outcome weighs, and which one leads.
use elite_work.Base.{ℕ, ◌+◌, ◌≡◌, refl, ap, ◌∙◌, arith, List, [], ◌∷◌}
use elite_work.Base.Tests.{◌==◌, if◌then◌else◌}
use elite_work.MediatorQuorum.{
  MediatorVote, OutcomeTally, add_vote, by_outcome, insert_tally, sort_tallies, tally_votes,
  sum_weights,
}

-- What the votes for one outcome weigh together.
abbrev pub weight_for : (bps : ℕ) → List MediatorVote → ℕ
weight_for bps [] = 0
weight_for bps (v ∷ votes) =
    (if v.seller_gets_bps == bps then v.weight else 0) + weight_for bps votes

-- What a list of tallies records for one outcome, and over all of them.
abbrev pub recorded : (bps : ℕ) → List OutcomeTally → ℕ
recorded bps [] = 0
recorded bps (t ∷ ts) = (if t.seller_gets_bps == bps then t.weight else 0) + recorded bps ts

abbrev pub recorded_weight : List OutcomeTally → ℕ
recorded_weight [] = 0
recorded_weight (t ∷ ts) = t.weight + recorded_weight ts

recorded-add_vote :
    (bps : ℕ) (ts : List OutcomeTally) (v : MediatorVote)
    → recorded bps (add_vote ts v)
      ≡ recorded bps ts + (if v.seller_gets_bps == bps then v.weight else 0)
unfolding add_vote
recorded-add_vote bps [] v = ground arith
recorded-add_vote bps (t ∷ ts) v = ground (arith, recorded-add_vote bps ts v)

recorded-by_outcome :
    (bps : ℕ) (ts : List OutcomeTally) (votes : List MediatorVote)
    → recorded bps (by_outcome ts votes) ≡ recorded bps ts + weight_for bps votes
unfolding by_outcome
recorded-by_outcome bps ts [] = omega arith
recorded-by_outcome bps ts (v ∷ votes) =
    omega (arith, recorded-by_outcome bps (add_vote ts v) votes, recorded-add_vote bps ts v)

recorded-insert :
    (bps : ℕ) (t : OutcomeTally) (ts : List OutcomeTally)
    → recorded bps (insert_tally t ts) ≡ recorded bps (t ∷ ts)
unfolding insert_tally
recorded-insert bps t [] = refl
recorded-insert bps t (u ∷ ts) = ground (arith, recorded-insert bps t ts)

recorded-sort :
    (bps : ℕ) (ts : List OutcomeTally) → recorded bps (sort_tallies ts) ≡ recorded bps ts
unfolding sort_tallies
recorded-sort bps [] = refl
recorded-sort bps (t ∷ ts) =
    omega (arith, recorded-insert bps t (sort_tallies ts), recorded-sort bps ts)

-- For every outcome the tally records exactly what the votes for it weigh.
pub recorded-tally_votes :
    (bps : ℕ) (votes : List MediatorVote) → recorded bps (tally_votes votes) ≡ weight_for bps votes
unfolding tally_votes
recorded-tally_votes bps votes =
    omega (arith, recorded-sort bps (by_outcome [] votes), recorded-by_outcome bps [] votes)

weight-add_vote :
    (ts : List OutcomeTally) (v : MediatorVote)
    → recorded_weight (add_vote ts v) ≡ recorded_weight ts + v.weight
unfolding add_vote
weight-add_vote [] v = omega arith
weight-add_vote (t ∷ ts) v = ground (arith, weight-add_vote ts v)

weight-by_outcome :
    (ts : List OutcomeTally) (votes : List MediatorVote)
    → recorded_weight (by_outcome ts votes) ≡ sum_weights (recorded_weight ts) votes
unfolding by_outcome sum_weights
weight-by_outcome ts [] = refl
weight-by_outcome ts (v ∷ votes) =
    weight-by_outcome (add_vote ts v) votes ∙ ap (λ w. sum_weights w votes) (weight-add_vote ts v)

weight-insert :
    (t : OutcomeTally) (ts : List OutcomeTally)
    → recorded_weight (insert_tally t ts) ≡ t.weight + recorded_weight ts
unfolding insert_tally
weight-insert t [] = refl
weight-insert t (u ∷ ts) = ground (arith, weight-insert t ts)

weight-sort : (ts : List OutcomeTally) → recorded_weight (sort_tallies ts) ≡ recorded_weight ts
unfolding sort_tallies
weight-sort [] = refl
weight-sort (t ∷ ts) = omega (arith, weight-insert t (sort_tallies ts), weight-sort ts)

-- The weights in the tally add up to the total weight of the votes.
pub weight-tally_votes :
    (votes : List MediatorVote) → recorded_weight (tally_votes votes) ≡ sum_weights 0 votes
unfolding tally_votes
weight-tally_votes votes = weight-sort (by_outcome [] votes) ∙ weight-by_outcome [] votes
