-- ===== src/MediatorQuorum/Votes.antt =====
-- Which votes, which configurations and which weights are accepted.
use text.Mathlib.Text.{◌==◌ as str_eq}
use text.Mathlib.TextEquality.{eq_iff}
use elite_work.Base.{◌≡◌, ◌≢◌, ◌↔◌, refl, true, false, arith, List, [], ◌∷◌, String}
use elite_work.Base.Tests.{◌==◌}
use elite_work.Base.Lists.{length, any, All}
use elite_work.Base.Int.{ℤ, pos, ◌≤ℤ◌, ◌<ℤ◌}
use elite_work.Base.Text.{Text, trim}
use elite_work.Base.Outcome.{ok}
use elite_work.MediatorQuorum.{
  MediatorVote, QuorumConfig, DisputeVoteState, RequestedConfig, requires_quorum, evaluate_vote,
  assert_vote_allowed, assert_quorum_config_valid, assert_mediator_weight_valid, bps_divisor,
  max_mediator_weight,
}

empty_iff : (s : Text) → ((length s == 0) ≡ true) ↔ (s ≡ [])
empty_iff [] = (λ h. refl, λ h. refl)
empty_iff (c ∷ s) = (λ h. absurd (ground (arith, h)), λ h. cc)

none_voted :
    (mediator : String) (votes : List MediatorVote)
    → (any (λ vote. str_eq vote.mediator mediator) votes ≡ false)
      ↔ All (λ vote. vote.mediator ≢ mediator) votes
none_voted mediator [] = (λ h. tt, λ h. refl)
none_voted mediator (v ∷ votes) =
    ground (arith, eq_iff v.mediator mediator, none_voted mediator votes)

-- The service lets a vote pass exactly when its share is from 0 up to 10,000, its rationale is not
-- blank, the trade's value puts it on the quorum path, and the mediator has not voted yet.
assert_vote_allowed_iff :
    (config : QuorumConfig) (state : DisputeVoteState) (mediator : String) (bps : ℤ)
    (rationale : Text)
    → (assert_vote_allowed config state mediator bps rationale ≡ ok tt) ↔ (
        (pos 0 ≤ℤ bps)
        × (bps ≤ℤ pos bps_divisor)
        × (trim rationale ≢ [])
        × (requires_quorum state.amount config ≡ true)
        × All (λ vote. vote.mediator ≢ mediator) state.votes)
unfolding assert_vote_allowed evaluate_vote
assert_vote_allowed_iff config state mediator bps rationale =
    ground (arith, none_voted mediator state.votes, empty_iff (trim rationale))

-- A configuration is accepted exactly when its fields are in bounds and the fallback asks for no more
-- than the quorum.
pub assert_quorum_config_valid_iff :
    (config : RequestedConfig)
    → (assert_quorum_config_valid config ≡ ok tt) ↔ (
        (pos 0 ≤ℤ config.value_threshold)
        × (pos 0 <ℤ config.required_weight)
        × (pos 0 <ℤ config.vote_window_secs)
        × (pos 0 <ℤ config.fallback_min_weight)
        × (config.fallback_min_weight ≤ℤ config.required_weight))
unfolding assert_quorum_config_valid
assert_quorum_config_valid_iff config = ground arith

-- A mediator's weight is accepted exactly from 1 up to the maximum.
pub assert_mediator_weight_valid_iff :
    (weight : ℤ)
    → (assert_mediator_weight_valid weight ≡ ok tt)
      ↔ ((pos 0 <ℤ weight) × (weight ≤ℤ pos max_mediator_weight))
unfolding assert_mediator_weight_valid
assert_mediator_weight_valid_iff weight = ground arith
