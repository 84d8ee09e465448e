-- ===== src/CircuitBreaker/Safety.antt =====
-- The states that a breaker can be in, when it refuses calls, how failures trip it, and how it
-- recovers.
use elite_work.Base.{
  ℕ, suc, ◌+◌, ◌≤◌, ◌<◌, ◌≡◌, ◌≢◌, refl, Bool, true, false, none, some, arith, List, [], ◌∷◌,
}
use elite_work.Base.Lists.{length}
use elite_work.Base.Int.{◌-ℤ◌}
use elite_work.CircuitBreaker.{
  closed, open_circuit, half_open, CircuitBreaker, CircuitBreakerOptions, new_circuit_breaker,
  transition_if_cooldown_elapsed, on_success, on_failure, call, refused,
}

module _ (options : CircuitBreakerOptions) (some_failures : 0 < options.failure_threshold)
    (some_successes : 0 < options.success_threshold) where
  -- What each state means for the fields of the breaker, where `streak` operations have failed since
  -- the last that ended well.
  abbrev pub IsSound : (streak : ℕ) → CircuitBreaker → Type 0
  IsSound streak b = elim b.state [
    | closed ↦
        (b.failure_count < options.failure_threshold)
        × (b.failure_count ≤ streak)
        × (b.opened_at ≡ none)
    | open_circuit ↦ b.opened_at ≢ none
    | half_open ↦ (b.success_count < options.success_threshold) × (b.opened_at ≢ none)
  ]

  -- A call begins, an operation ends well, or it fails, at any time and in any order.
  pub data Step (n : ℕ) (b : CircuitBreaker) : ℕ → CircuitBreaker → Type 0 where
    begin : (now : ℕ) → Step n b n (transition_if_cooldown_elapsed options now b)
    succeed : Step n b 0 (on_success options b)
    fail : (now : ℕ) → Step n b (suc n) (on_failure options now b)

  -- The breakers that calls reach, each with its streak of failures.
  pub data Reach : ℕ → CircuitBreaker → Type 0 where
    start : Reach 0 new_circuit_breaker
    next : {n m : ℕ} {b c : CircuitBreaker} → Reach n b → Step n b m c → Reach m c

  Step-IsSound : {n m : ℕ} {b c : CircuitBreaker} → Step n b m c → IsSound n b → IsSound m c
  unfolding transition_if_cooldown_elapsed on_success on_failure
  Step-IsSound (begin now) h = ground (arith, some_successes)
  Step-IsSound succeed h = ground (arith, some_failures)
  Step-IsSound (fail now) h = ground arith

  -- Where both thresholds are above 0, every breaker that calls can reach, overlapping calls included,
  -- is sound: closed, it has counted fewer failures than its threshold and no more than there were
  -- since the last success, and has no time of opening; open, it has one; half open, it has one and has
  -- counted fewer successes than its threshold.
  pub Reach-IsSound : {n : ℕ} {b : CircuitBreaker} → Reach n b → IsSound n b
  Reach-IsSound start = (some_failures, omega arith, refl)
  Reach-IsSound (next r st) = Step-IsSound st (Reach-IsSound r)

-- The calls whose operations throw, one at each pair of readings of the clock.
abbrev pub failing : CircuitBreakerOptions → List (ℕ × ℕ) → CircuitBreaker → CircuitBreaker
failing options [] b = b
failing options ((now, later) ∷ times) b =
    (call options now later false (failing options times b)).0

-- The calls whose operations end well.
abbrev pub succeeding : CircuitBreakerOptions → List (ℕ × ℕ) → CircuitBreaker → CircuitBreaker
succeeding options [] b = b
succeeding options ((now, later) ∷ times) b =
    (call options now later true (succeeding options times b)).0

-- A failing call on a closed breaker counts, and trips it at the threshold.
fail_closed :
    (options : CircuitBreakerOptions) (now later n : ℕ) (b : CircuitBreaker)
    → b.state ≡ closed
    → b.failure_count ≡ n
    → let c = (call options now later false b).0 in
      (suc n < options.failure_threshold → (c.state ≡ closed) × (c.failure_count ≡ suc n))
      × (options.failure_threshold ≤ suc n → (c.state ≡ open_circuit) × (c.opened_at ≡ some later))
unfolding call transition_if_cooldown_elapsed on_failure
fail_closed options now later n b h count = ground (arith, h, count)

fewer_failures :
    (options : CircuitBreakerOptions) (times : List (ℕ × ℕ))
    → length times < options.failure_threshold
    → let b = failing options times new_circuit_breaker in
      (b.state ≡ closed) × (b.failure_count ≡ length times)
fewer_failures options [] h = (refl, refl)
fewer_failures options ((now, later) ∷ times) h =
    let (shut, count) = fewer_failures options times (ground (arith, h)) in
    (fail_closed options now later (length times) (failing options times new_circuit_breaker) shut
        count).0
      h

-- From the start, failing calls trip the breaker at exactly the threshold, and no sooner; the last
-- one's reading of the clock is the time of the opening.
failing_trips :
    (options : CircuitBreakerOptions) (now later : ℕ) (times : List (ℕ × ℕ))
    → suc (length times) ≤ options.failure_threshold
    → let b = failing options ((now, later) ∷ times) new_circuit_breaker in
      (suc (length times) < options.failure_threshold → b.state ≡ closed)
      × (suc (length times) ≡ options.failure_threshold
          → (b.state ≡ open_circuit) × (b.opened_at ≡ some later))
failing_trips options now later times h =
    let (shut, count) = fewer_failures options times (ground (arith, h)) in
    let (more, trips) =
      fail_closed options now later (length times) (failing options times new_circuit_breaker) shut
        count in
    (λ less. (more less).0, λ e. trips (ground (arith, e)))

-- Where the clock is not behind the time of the opening, an open breaker refuses every call and does not change while the
-- cooldown lasts; at its end the next call goes through.
open_refuses :
    (options : CircuitBreakerOptions) (now later : ℕ) (succeeds : Bool) (b : CircuitBreaker)
    (at : ℕ)
    → b.state ≡ open_circuit
    → b.opened_at ≡ some at
    → at ≤ now
    → let called = call options now later succeeds b in
      (now < at + options.cooldown_ms → called ≡ (b, refused))
      × (at + options.cooldown_ms ≤ now → called.1 ≢ refused)
unfolding call transition_if_cooldown_elapsed ◌-ℤ◌
open_refuses options now later succeeds b at opened when h = ground (arith, opened, when)

-- A success on a half-open breaker counts, and closes it at the threshold.
success_half_open :
    (options : CircuitBreakerOptions) (now later n : ℕ) (b : CircuitBreaker)
    → b.state ≡ half_open
    → b.success_count ≡ n
    → let c = (call options now later true b).0 in
      (suc n < options.success_threshold → (c.state ≡ half_open) × (c.success_count ≡ suc n))
      × (options.success_threshold ≤ suc n → c ≡ new_circuit_breaker)
unfolding call transition_if_cooldown_elapsed on_success
success_half_open options now later n b h count = ground (arith, h, count)

-- The probe after the cooldown counts as the first success.
success_probe :
    (options : CircuitBreakerOptions) (now later at : ℕ) (b : CircuitBreaker)
    → b.state ≡ open_circuit
    → b.opened_at ≡ some at
    → at + options.cooldown_ms ≤ now
    → let c = (call options now later true b).0 in
      (1 < options.success_threshold → (c.state ≡ half_open) × (c.success_count ≡ 1))
      × (options.success_threshold ≤ 1 → c ≡ new_circuit_breaker)
unfolding call transition_if_cooldown_elapsed on_success ◌-ℤ◌
success_probe options now later at b opened when h = ground (arith, opened, when)

module _ (options : CircuitBreakerOptions) (now later at : ℕ) (b : CircuitBreaker)
    (opened : b.state ≡ open_circuit) (when : b.opened_at ≡ some at)
    (elapsed : at + options.cooldown_ms ≤ now) where
  abbrev probed : CircuitBreaker
  probed = (call options now later true b).0

  fewer_successes :
      (times : List (ℕ × ℕ))
      → suc (length times) < options.success_threshold
      → let c = succeeding options times probed in
        (c.state ≡ half_open) × (c.success_count ≡ suc (length times))
  fewer_successes [] h = (success_probe options now later at b opened when elapsed).0 h
  fewer_successes ((t, u) ∷ times) h =
      let (half, count) = fewer_successes times (ground (arith, h)) in
      (success_half_open options t u _ (succeeding options times probed) half count).0 h

  -- Once the cooldown is over, as many successes as the threshold, the probe among them, bring the
  -- breaker back to how it was constructed.
  pub succeeding_closes :
      (times : List (ℕ × ℕ))
      → suc (length times) ≡ options.success_threshold
      → succeeding options times probed ≡ new_circuit_breaker
  succeeding_closes [] e =
      (success_probe options now later at b opened when elapsed).1 (ground (arith, e))
  succeeding_closes ((t, u) ∷ times) e =
      let (half, count) = fewer_successes times (ground (arith, e)) in
      (success_half_open options t u _ (succeeding options times probed) half count).1
        (ground (arith, e))
