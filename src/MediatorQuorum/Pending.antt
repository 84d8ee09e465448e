-- ===== src/MediatorQuorum/Pending.antt =====
-- The resolution that would be applied now: what it rests on, and that one is always reached.
use elite_work.Base.{
  ℕ, ◌+◌, ◌≤◌, ◌<◌, ◌≡◌, ◌≢◌, refl, sym, ap, ◌∙◌, subst, true, Option, none, some, arith, List, [],
  ◌∷◌,
}
use elite_work.MediatorQuorum.{
  OutcomeTally, QuorumConfig, DisputeVoteState, Resolution, quorum, fallback, tally_votes,
  first_tally, sum_weights, quorum_status, pending_resolution, resolution_for, is_past,
  fallback_time,
}
use elite_work.MediatorQuorum.Tally.{weight_for, recorded_weight, weight-tally_votes}
use elite_work.MediatorQuorum.Leader.{tally_votes-leader}

-- What a resolution of each kind rests on.
abbrev pub IsGrounded : DisputeVoteState → (now : ℕ) → QuorumConfig → Resolution → Type 0
IsGrounded state now config r = elim r.via [
  | quorum ↦ config.required_weight ≤ r.weight
  | fallback ↦
      (r.weight < config.required_weight)
      × (is_past (fallback_time state.opened_at config.vote_window_secs) now ≡ true)
      × (config.fallback_min_weight ≤ sum_weights 0 state.votes)
]

resolution_of :
    (state : DisputeVoteState) (now : ℕ) (config : QuorumConfig) (r : Resolution)
    (o : Option OutcomeTally)
    → first_tally (tally_votes state.votes) ≡ o
    → resolution_for o (quorum_status state now config) ≡ some r
    → (leader : OutcomeTally) × (o ≡ some leader)
      × (r.seller_gets_bps ≡ leader.seller_gets_bps)
      × (r.weight ≡ leader.weight)
      × IsGrounded state now config r
unfolding quorum_status
resolution_of state now config r none first e = cc
resolution_of state now config r (some leader) first e =
    (leader, refl, ground (arith, e, first), ground (arith, e, first), ground (arith, e, first))

-- Behind every pending resolution stands exactly the weight of the votes for its outcome. By quorum
-- it is the required weight. By fallback the window is over and enough weight has voted.
pub pending_resolution-IsGrounded :
    (state : DisputeVoteState) (now : ℕ) (config : QuorumConfig) (r : Resolution)
    → pending_resolution state now config ≡ some r
    → (r.weight ≡ weight_for r.seller_gets_bps state.votes) × IsGrounded state now config r
unfolding pending_resolution quorum_status
pending_resolution-IsGrounded state now config r e =
    let (leader, first, bps, weight, why) =
      resolution_of state now config r (first_tally (tally_votes state.votes)) refl e in
    let (for_leader, others) = tally_votes-leader state.votes leader first in
    (weight ∙ sym for_leader ∙ ap (λ b. weight_for b state.votes) (sym bps), why)

weighty_first :
    (ts : List OutcomeTally)
    → 0 < recorded_weight ts
    → (t : OutcomeTally) × (first_tally ts ≡ some t)
weighty_first [] h = absurd (omega (arith, h))
weighty_first (t ∷ ts) h = (t, refl)

settled_of :
    (state : DisputeVoteState) (now : ℕ) (config : QuorumConfig) (leader : OutcomeTally)
    → first_tally (tally_votes state.votes) ≡ some leader
    → is_past (fallback_time state.opened_at config.vote_window_secs) now ≡ true
    → config.fallback_min_weight ≤ sum_weights 0 state.votes
    → resolution_for (some leader) (quorum_status state now config) ≢ none
unfolding quorum_status
settled_of state now config leader first past enough = ground (arith, first, past, enough)

-- Once the window is over and the fallback's weight, which is positive, has voted, there is a
-- resolution, however the votes are split.
pub pending_resolution-settles :
    (state : DisputeVoteState) (now at : ℕ) (config : QuorumConfig)
    → state.opened_at ≡ some at
    → at + config.vote_window_secs ≤ now
    → 0 < config.fallback_min_weight
    → config.fallback_min_weight ≤ sum_weights 0 state.votes
    → pending_resolution state now config ≢ none
unfolding pending_resolution quorum_status
pending_resolution-settles state now at config opened past positive enough =
    let (leader, first) =
      weighty_first (tally_votes state.votes)
        (omega (arith, weight-tally_votes state.votes, positive, enough)) in
    let settled = settled_of state now config leader first (ground (arith, opened, past)) enough in
    subst (λ o. resolution_for o (quorum_status state now config) ≢ none) (sym first) settled
