-- ===== src/Tests/Breakers.antt =====
-- The breaker of a service at concrete inputs.
use elite_work.Base.{◌+◌, ◌≤◌, ◌<◌, ◌≡◌, refl, true, false}
use elite_work.ServiceBreaker.{
  closed, open_circuit, CircuitBreaker, new_circuit_breaker, default_breaker_options,
  record_failure, reset, unavailable, succeeded, failed, with_circuit_breaker,
}
use elite_work.ServiceBreaker.Recovery.{with_circuit_breaker-open}

abbrev tripped : CircuitBreaker
tripped = record { state = open_circuit; failure_count = 5; last_failure_time = 100 }

with_circuit_breaker-open_example :
    let good = with_circuit_breaker default_breaker_options 30_100 30_200 true tripped in
    let bad = with_circuit_breaker default_breaker_options 30_100 30_200 false tripped in
    (30_100 < 100 + 30_000 → (good ≡ (tripped, unavailable)) × (bad ≡ (tripped, unavailable)))
    × (100 + 30_000 ≤ 30_100
        → (good ≡ (reset tripped, succeeded))
          × (bad.0.state ≡ open_circuit)
          × (bad.0.last_failure_time ≡ 30_200)
          × (bad.1 ≡ failed))
with_circuit_breaker-open_example =
    with_circuit_breaker-open default_breaker_options 30_100 30_200 tripped refl

still_closed : (record_failure default_breaker_options 10 new_circuit_breaker).state ≡ closed
unfolding record_failure
still_closed = refl
