-- ===== src/ServiceBreaker/Recovery.antt =====
-- What an open breaker does with a call, and what holds of a closed one.
use elite_work.Base.{ℕ, ◌+◌, ◌≤◌, ◌<◌, ◌≡◌, true, false, arith}
use elite_work.Base.Int.{◌-ℤ◌}
use elite_work.ServiceBreaker.{
  closed, open_circuit, CircuitBreakerOptions, CircuitBreaker, new_circuit_breaker, get_state,
  record_success, record_failure, is_available, reset, unavailable, succeeded, failed,
  with_circuit_breaker,
}

-- A call on an open breaker: until the time is over it is refused and changes nothing. Then a success
-- brings the breaker back to closed with no failures counted, and a failure opens it again from the
-- time of that failure, whatever the threshold.
pub with_circuit_breaker-open :
    (options : CircuitBreakerOptions) (now later : ℕ) (b : CircuitBreaker)
    → b.state ≡ open_circuit
    → let good = with_circuit_breaker options now later true b in
      let bad = with_circuit_breaker options now later false b in
      (now < b.last_failure_time + options.reset_timeout_ms
        → (good ≡ (b, unavailable)) × (bad ≡ (b, unavailable)))
      × (b.last_failure_time + options.reset_timeout_ms ≤ now
          → (good ≡ (reset b, succeeded))
            × (bad.0.state ≡ open_circuit)
            × (bad.0.last_failure_time ≡ later)
            × (bad.1 ≡ failed))
unfolding with_circuit_breaker is_available get_state record_success record_failure ◌-ℤ◌
with_circuit_breaker-open options now later b opened = ground (arith, opened)

module _ (options : CircuitBreakerOptions) (positive : 0 < options.failure_threshold) where
  -- The ways to use a breaker, at any time and in any order, since calls may overlap.
  pub data Step (b : CircuitBreaker) : CircuitBreaker → Type 0 where
    asks : (now : ℕ) → Step b (is_available options now b).0
    succeeds : Step b (record_success b)
    fails : (now : ℕ) → Step b (record_failure options now b)
    resets : Step b (reset b)

  pub data Reach : CircuitBreaker → Type 0 where
    start : Reach new_circuit_breaker
    next : {b c : CircuitBreaker} → Reach b → Step b c → Reach c

  abbrev pub IsBelow : CircuitBreaker → Type 0
  IsBelow b = b.state ≡ closed → b.failure_count < options.failure_threshold

  Step-IsBelow : {b c : CircuitBreaker} → Step b c → IsBelow b → IsBelow c
  unfolding is_available get_state record_success record_failure
  Step-IsBelow (asks now) h = ground (arith, positive)
  Step-IsBelow succeeds h = ground (arith, positive)
  Step-IsBelow (fails now) h = ground (arith, positive)
  Step-IsBelow resets h = ground (arith, positive)

  -- However a breaker is used, while it is closed it has counted fewer failures than the threshold.
  reached_below_threshold :
      {b : CircuitBreaker}
      → Reach b
      → b.state ≡ closed
      → b.failure_count < options.failure_threshold
  reached_below_threshold start shut = positive
  reached_below_threshold (next r st) shut = Step-IsBelow st (reached_below_threshold r) shut
