-- ===== src/MediatorQuorum.antt =====
-- backend/src/services/mediatorQuorum.service.ts: weighted votes of mediators on a dispute of high
-- value, the outcome that leads, and when it is applied. Weights, shares in basis points and times
-- are natural numbers where the code has validated them, and integers where it has not.
pub mod Tally
pub mod Leader
pub mod Pending
pub mod Votes
use text.Mathlib.Text.{◌==◌ as str_eq}
use elite_work.Base.{
  ℕ, ◌+◌, ◌-◌, ◌≡◌, String, Bool, true, false, not, ◌&&◌, ◌||◌, Option, none, some, List, [], ◌∷◌,
}
use elite_work.Base.Tests.{ltb, leb, ◌==◌, if◌then◌else◌, is_none}
use elite_work.Base.Lists.{length, any}
use elite_work.Base.Int.{ℤ, pos, negsuc, ltb_ℤ, leb_ℤ}
use elite_work.Base.Text.{Text, trim}
use elite_work.Base.Outcome.{Outcome, ok, throw, throw_if, ◌>>=◌, ◌>>◌}

abbrev pub max_mediator_weight : ℕ
max_mediator_weight = 10

abbrev pub bps_divisor : ℕ
bps_divisor = 10000

pub record QuorumConfig : Type 0 where
  pub enabled : Bool
  pub value_threshold : ℤ
  pub required_weight : ℕ
  pub vote_window_secs : ℕ
  pub fallback_min_weight : ℕ

abbrev pub default_quorum_config : QuorumConfig
default_quorum_config = record {
  enabled = false;
  value_threshold = pos 10000000000;
  required_weight = 3;
  vote_window_secs = 604800;
  fallback_min_weight = 2;
}

pub record MediatorVote : Type 0 where
  pub mediator : String
  pub seller_gets_bps : ℕ
  pub weight : ℕ
  pub rationale_hash : Text
  pub voted_at : ℕ

pub record DisputeVoteState : Type 0 where
  pub trade_id : String
  pub amount : ℤ
  pub votes : List MediatorVote
  pub opened_at : Option ℕ

pub record OutcomeTally : Type 0 where
  pub seller_gets_bps : ℕ
  pub weight : ℕ
  pub vote_count : ℕ

pub data QuorumResolution : Type 0 where
  quorum fallback : QuorumResolution

pub record QuorumStatus : Type 0 where
  pub trade_id : String
  pub requires_quorum : Bool
  pub tallies : List OutcomeTally
  pub total_weight : ℕ
  pub vote_count : ℕ
  pub leading_bps : Option ℕ
  pub weight_to_quorum : ℕ
  pub quorum_reached : Bool
  pub fallback_available_at : Option ℕ
  pub fallback_available : Bool

unfoldable pub requires_quorum : (amount : ℤ) → QuorumConfig → Bool
requires_quorum amount config = config.enabled && leb_ℤ config.value_threshold amount

-- One round of the loop of `tallyVotes`; the `Map` keeps the order of insertion.
unfoldable pub add_vote : List OutcomeTally → MediatorVote → List OutcomeTally
add_vote [] vote =
    record { seller_gets_bps = vote.seller_gets_bps; weight = vote.weight; vote_count = 1 } ∷ []
add_vote (t ∷ ts) vote =
    if t.seller_gets_bps == vote.seller_gets_bps
    then record t { weight = t.weight + vote.weight; vote_count = t.vote_count + 1 } ∷ ts
    else t ∷ add_vote ts vote

unfoldable pub by_outcome : List OutcomeTally → List MediatorVote → List OutcomeTally
unfolding add_vote
by_outcome ts [] = ts
by_outcome ts (vote ∷ votes) = by_outcome (add_vote ts vote) votes

-- `b.weight - a.weight || a.sellerGetsBps - b.sellerGetsBps` is at most 0.
abbrev pub comes_first : OutcomeTally → OutcomeTally → Bool
comes_first a b =
    ltb b.weight a.weight || (a.weight == b.weight && leb a.seller_gets_bps b.seller_gets_bps)

unfoldable pub insert_tally : OutcomeTally → List OutcomeTally → List OutcomeTally
insert_tally a [] = a ∷ []
insert_tally a (b ∷ bs) = if comes_first a b then a ∷ b ∷ bs else b ∷ insert_tally a bs

-- `sort` with that comparator
unfoldable pub sort_tallies : List OutcomeTally → List OutcomeTally
unfolding insert_tally
sort_tallies [] = []
sort_tallies (t ∷ ts) = insert_tally t (sort_tallies ts)

unfoldable pub tally_votes : List MediatorVote → List OutcomeTally
unfolding by_outcome sort_tallies
tally_votes votes = sort_tallies (by_outcome [] votes)

-- `state.votes.reduce((sum, vote) => sum + vote.weight, 0)`
unfoldable pub sum_weights : ℕ → List MediatorVote → ℕ
sum_weights sum [] = sum
sum_weights sum (vote ∷ votes) = sum_weights (sum + vote.weight) votes

-- `tallies[0] ?? null`
abbrev pub first_tally : List OutcomeTally → Option OutcomeTally
first_tally [] = none
first_tally (t ∷ ts) = some t

abbrev pub leader_reached : Option OutcomeTally → (required : ℕ) → Bool
leader_reached none required = false
leader_reached (some leader) required = leb required leader.weight

abbrev pub leader_bps : Option OutcomeTally → Option ℕ
leader_bps none = none
leader_bps (some leader) = some leader.seller_gets_bps

abbrev pub weight_missing : Option OutcomeTally → (required : ℕ) → ℕ
weight_missing none required = required
weight_missing (some leader) required = required - leader.weight

abbrev pub fallback_time : (opened_at : Option ℕ) → (window : ℕ) → Option ℕ
fallback_time none window = none
fallback_time (some at) window = some (at + window)

abbrev pub is_past : Option ℕ → (now : ℕ) → Bool
is_past none now = false
is_past (some at) now = leb at now

unfoldable pub quorum_status : DisputeVoteState → (now : ℕ) → QuorumConfig → QuorumStatus
unfolding tally_votes sum_weights requires_quorum
quorum_status state now config =
    let tallies = tally_votes state.votes in
    let total = sum_weights 0 state.votes in
    let leader = first_tally tallies in
    let available_at = fallback_time state.opened_at config.vote_window_secs in
    let reached = leader_reached leader config.required_weight in
    record {
      trade_id = state.trade_id;
      requires_quorum = requires_quorum state.amount config;
      tallies = tallies;
      total_weight = total;
      vote_count = length state.votes;
      leading_bps = leader_bps leader;
      weight_to_quorum = weight_missing leader config.required_weight;
      quorum_reached = reached;
      fallback_available_at = available_at;
      fallback_available =
          not reached && is_past available_at now && leb config.fallback_min_weight total;
    }

pub record Resolution : Type 0 where
  pub seller_gets_bps : ℕ
  pub weight : ℕ
  pub via : QuorumResolution

abbrev pub resolved_by : OutcomeTally → QuorumResolution → Resolution
resolved_by leader via = record {
  seller_gets_bps = leader.seller_gets_bps;
  weight = leader.weight;
  via = via;
}

abbrev pub resolution_for : Option OutcomeTally → QuorumStatus → Option Resolution
resolution_for none status = none
resolution_for (some leader) status =
    if status.quorum_reached
    then some (resolved_by leader quorum)
    else if status.fallback_available
    then some (resolved_by leader fallback)
    else none

unfoldable pub pending_resolution : DisputeVoteState → (now : ℕ) → QuorumConfig → Option Resolution
unfolding quorum_status
pending_resolution state now config =
    let status = quorum_status state now config in
    resolution_for (first_tally status.tallies) status

pub data VoteRejection : Type 0 where
  quorum_not_required already_voted invalid_bps missing_rationale : VoteRejection
  already_resolved : VoteRejection

-- `none` is the evaluation that allows the vote.
unfoldable pub evaluate_vote :
    DisputeVoteState
    → (mediator : String) (seller_gets_bps : ℤ) (rationale_hash : Text) → QuorumConfig
    → Option VoteRejection
unfolding requires_quorum
evaluate_vote state mediator seller_gets_bps rationale_hash config =
    if ltb_ℤ seller_gets_bps (pos 0) || ltb_ℤ (pos bps_divisor) seller_gets_bps
    then some invalid_bps
    else if length (trim rationale_hash) == 0
    then some missing_rationale
    else if not (requires_quorum state.amount config)
    then some quorum_not_required
    else if any (λ vote. str_eq vote.mediator mediator) state.votes
    then some already_voted
    else none

-- A configuration as an administrator supplies it.
pub record RequestedConfig : Type 0 where
  pub enabled : Bool
  pub value_threshold : ℤ
  pub required_weight : ℤ
  pub vote_window_secs : ℤ
  pub fallback_min_weight : ℤ

pub data ConfigError : Type 0 where
  threshold_negative required_not_positive window_not_positive : ConfigError
  fallback_not_positive fallback_over_required : ConfigError
  weight_not_positive weight_over_maximum : ConfigError

unfoldable pub assert_quorum_config_valid : RequestedConfig → Outcome ConfigError Unit
assert_quorum_config_valid config = do
  throw_if (ltb_ℤ config.value_threshold (pos 0)) threshold_negative
  throw_if (leb_ℤ config.required_weight (pos 0)) required_not_positive
  throw_if (leb_ℤ config.vote_window_secs (pos 0)) window_not_positive
  throw_if (leb_ℤ config.fallback_min_weight (pos 0)) fallback_not_positive
  throw_if (ltb_ℤ config.required_weight config.fallback_min_weight) fallback_over_required
  ok tt

unfoldable pub assert_mediator_weight_valid : ℤ → Outcome ConfigError Unit
assert_mediator_weight_valid weight = do
  throw_if (leb_ℤ weight (pos 0)) weight_not_positive
  throw_if (ltb_ℤ (pos max_mediator_weight) weight) weight_over_maximum
  ok tt

-- `MediatorQuorumService.assertVoteAllowed`
abbrev pub or_reject : Option VoteRejection → Outcome VoteRejection Unit
or_reject none = ok tt
or_reject (some why) = throw why

unfoldable pub assert_vote_allowed :
    QuorumConfig
    → DisputeVoteState
    → (mediator : String) (seller_gets_bps : ℤ) (rationale_hash : Text) → Outcome VoteRejection Unit
unfolding evaluate_vote
assert_vote_allowed config state mediator seller_gets_bps rationale_hash =
    or_reject (evaluate_vote state mediator seller_gets_bps rationale_hash config)
