-- ===== src/Tests/Guards.antt =====
-- The quorum, the breaker, the deadline caps and the wallet at concrete inputs.
use elite_work.Base.{
  ℕ, ◌≤◌, ◌<◌, ◌≡◌, ◌≢◌, ◌↔◌, refl, String, true, false, none, some, List, [], ◌∷◌, arith,
}
use elite_work.Base.Int.{pos}
use elite_work.Base.Text.{codes}
use elite_work.MediatorQuorum.{
  MediatorVote, OutcomeTally, DisputeVoteState, Resolution, default_quorum_config, tally_votes,
  add_vote, by_outcome, insert_tally, sort_tallies, first_tally, pending_resolution, quorum_status,
  sum_weights, fallback,
}
use elite_work.MediatorQuorum.Tally.{weight_for}
use elite_work.MediatorQuorum.Leader.{IsBehind, tally_votes-leader}
use elite_work.MediatorQuorum.Pending.{
  IsGrounded, pending_resolution-IsGrounded, pending_resolution-settles,
}
use elite_work.CircuitBreaker.{
  CircuitBreaker, CircuitBreakerOptions, new_circuit_breaker, open_circuit, call, on_failure,
}
use elite_work.CircuitBreaker.Safety.{
  IsSound, Step, Reach, Reach-IsSound, succeeding, succeeding_closes,
}
use elite_work.DeadlineExtension.{TradeExtensionState, default_extension_policy, evaluate_extension}
use elite_work.DeadlineExtension.Caps.{IsPermitted, evaluate_from_iff}
use elite_work.Wallet.{WalletProbe, connected, derive_wallet_state}
use elite_work.Wallet.Offers.{IsOnNetwork, derive_wallet_state-connected_iff}

abbrev vote_of : String → (bps weight : ℕ) → MediatorVote
vote_of mediator bps weight = record {
  mediator = mediator;
  seller_gets_bps = bps;
  weight = weight;
  rationale_hash = codes "QmRationale";
  voted_at = 50;
}

abbrev votes : List MediatorVote
votes = vote_of "m1" 7_000 1 ∷ vote_of "m2" 5_000 1 ∷ []

abbrev leader : OutcomeTally
leader = record { seller_gets_bps = 5_000; weight = 1; vote_count = 1 }

tallied : first_tally (tally_votes votes) ≡ some leader
unfolding tally_votes by_outcome add_vote sort_tallies insert_tally
tallied = refl

tally_votes-leader_example :
    (weight_for 5_000 votes ≡ 1)
    × ((bps : ℕ) → 0 < weight_for bps votes → IsBehind leader bps (weight_for bps votes))
tally_votes-leader_example = tally_votes-leader votes leader tallied

abbrev vote_state : DisputeVoteState
vote_state = record {
  trade_id = "t-1";
  amount = pos 20_000_000_000;
  votes = votes;
  opened_at = some 50;
}

voted_enough : 2 ≤ sum_weights 0 votes
unfolding sum_weights
voted_enough = omega arith

pending_resolution-settles_example :
    pending_resolution vote_state 700_000 default_quorum_config ≢ none
pending_resolution-settles_example =
    pending_resolution-settles vote_state 700_000 50 default_quorum_config refl (omega arith)
      (omega arith) voted_enough

abbrev by_fallback : Resolution
by_fallback = record { seller_gets_bps = 5_000; weight = 1; via = fallback }

falls_back : pending_resolution vote_state 700_000 default_quorum_config ≡ some by_fallback
unfolding pending_resolution quorum_status tally_votes by_outcome add_vote sort_tallies insert_tally
    sum_weights
falls_back = refl

pending_resolution-IsGrounded_example :
    (1 ≡ weight_for 5_000 votes) × IsGrounded vote_state 700_000 default_quorum_config by_fallback
pending_resolution-IsGrounded_example =
    pending_resolution-IsGrounded vote_state 700_000 default_quorum_config by_fallback falls_back

abbrev options : CircuitBreakerOptions
options = record { failure_threshold = 2; success_threshold = 2; cooldown_ms = 100 }

Reach-IsSound_example :
    IsSound options (omega arith) (omega arith) 1 (on_failure options 10 new_circuit_breaker)
Reach-IsSound_example =
    Reach-IsSound options (omega arith) (omega arith) (Reach.next Reach.start (Step.fail 10))

abbrev tripped : CircuitBreaker
tripped = record { state = open_circuit; failure_count = 2; success_count = 0; opened_at = some 40 }

succeeding_closes_example :
    succeeding options ((150, 151) ∷ []) (call options 140 141 true tripped).0 ≡ new_circuit_breaker
succeeding_closes_example =
    succeeding_closes options 140 141 40 tripped refl refl (omega arith) ((150, 151) ∷ []) refl

abbrev trade : TradeExtensionState
trade = record {
  trade_id = "t-1";
  extensions_used = 1;
  original_deadline = some 1_000;
  current_deadline = some 2_000;
}

evaluate_from_iff_example :
    ((evaluate_extension trade 3_000 1_500 default_extension_policy).allowed ≡ true)
    ↔ IsPermitted trade default_extension_policy 2_000 3_000 1_500
evaluate_from_iff_example = evaluate_from_iff trade default_extension_policy 2_000 3_000 1_500 refl

abbrev probe : WalletProbe
probe = record {
  detected = true;
  allowed = true;
  has_address = true;
  network = some "TESTNET";
  expected_network = "PUBLIC";
  connecting = false;
  error = none;
}

derive_wallet_state-connected_iff_example : (derive_wallet_state probe ≡ connected) ↔ (
    (false ≡ false)
    × (probe.error ≡ none)
    × (true ≡ true)
    × (true ≡ true)
    × (true ≡ true)
    × IsOnNetwork (some "TESTNET") "PUBLIC")
derive_wallet_state-connected_iff_example = derive_wallet_state-connected_iff probe
