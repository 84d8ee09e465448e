-- ===== src/ServiceBreaker.antt =====
-- backend/src/lib/circuit-breaker.ts: the breaker that closes again at the first success. The clock's
-- readings are arguments; logs are left out. `getState` moves an open breaker whose time is over, so
-- reading it returns the breaker besides.
pub mod Recovery
use elite_work.Base.{ℕ, ◌+◌, Bool, true, false}
use elite_work.Base.Tests.{leb, if◌then◌else◌}
use elite_work.Base.Int.{pos, ◌-ℤ◌, leb_ℤ}

pub data CircuitState : Type 0 where
  closed open_circuit half_open : CircuitState

pub record CircuitBreakerOptions : Type 0 where
  pub failure_threshold : ℕ
  pub reset_timeout_ms : ℕ

pub record CircuitBreaker : Type 0 where
  pub state : CircuitState
  pub failure_count : ℕ
  pub last_failure_time : ℕ

abbrev pub new_circuit_breaker : CircuitBreaker
new_circuit_breaker = record { state = closed; failure_count = 0; last_failure_time = 0 }

-- `defaultBreaker`
abbrev pub default_breaker_options : CircuitBreakerOptions
default_breaker_options = record { failure_threshold = 5; reset_timeout_ms = 30_000 }

unfoldable pub get_state :
    CircuitBreakerOptions → (now : ℕ) → CircuitBreaker → CircuitBreaker × CircuitState
get_state options now b =
    let half = record b { state = half_open } in
    let elapsed = leb_ℤ (pos options.reset_timeout_ms) (pos now -ℤ pos b.last_failure_time) in
    elim b.state [
      | open_circuit ↦ if elapsed then (half, half_open) else (b, open_circuit)
      | closed ↦ (b, closed)
      | half_open ↦ (b, half_open)
    ]

unfoldable pub record_success : CircuitBreaker → CircuitBreaker
record_success b = elim b.state [
  | half_open ↦ record b { state = closed; failure_count = 0 }
  | closed ↦ record b { failure_count = 0 }
  | open_circuit ↦ record b { failure_count = 0 }
]

abbrev pub tripped_at : CircuitBreakerOptions → CircuitBreaker → CircuitBreaker
tripped_at options b =
    if leb options.failure_threshold b.failure_count then record b { state = open_circuit } else b

unfoldable pub record_failure : CircuitBreakerOptions → (now : ℕ) → CircuitBreaker → CircuitBreaker
record_failure options now b =
    let counted = record b { failure_count = b.failure_count + 1; last_failure_time = now } in
    elim b.state [
      | half_open ↦ record counted { state = open_circuit }
      | closed ↦ tripped_at options counted
      | open_circuit ↦ tripped_at options counted
    ]

abbrev pub lets_through : CircuitState → Bool
lets_through closed = true
lets_through open_circuit = false
lets_through half_open = true

unfoldable pub is_available :
    CircuitBreakerOptions → (now : ℕ) → CircuitBreaker → CircuitBreaker × Bool
unfolding get_state
is_available options now b =
    let (b', current) = get_state options now b in (b', lets_through current)

abbrev pub reset : CircuitBreaker → CircuitBreaker
reset b = record b { state = closed; failure_count = 0 }

-- What a caller of `withCircuitBreaker` sees: the error of an open breaker, or how the operation ended.
pub data Called : Type 0 where
  unavailable succeeded failed : Called

-- The operation ends well (`true`) or throws, with nothing in between.
unfoldable pub with_circuit_breaker :
    CircuitBreakerOptions → (now later : ℕ) → Bool → CircuitBreaker → CircuitBreaker × Called
unfolding is_available record_success record_failure
with_circuit_breaker options now later succeeds b =
    let (ready, available) = is_available options now b in
    if available
    then if succeeds
      then (record_success ready, succeeded)
      else (record_failure options later ready, failed)
    else (ready, unavailable)
