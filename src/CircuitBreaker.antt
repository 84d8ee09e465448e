-- ===== src/CircuitBreaker.antt =====
-- backend/src/lib/circuitBreaker.ts: the breaker in front of a downstream service. A call is the
-- transition before it, the guard, and the report of how the operation ended, with the clock's
-- readings as arguments; calls may overlap, so the three are steps of their own.
pub mod Safety
use elite_work.Base.{ℕ, zero, suc, ◌+◌, ◌-◌, ◌≡◌, Bool, true, false, Option, none, some}
use elite_work.Base.Tests.{ltb, leb, if◌then◌else◌}
use elite_work.Base.Int.{ℤ, pos, ◌-ℤ◌, leb_ℤ}

pub data CircuitState : Type 0 where
  closed open_circuit half_open : CircuitState

-- The options, and the breaker that they configure.
pub record CircuitBreakerOptions : Type 0 where
  pub failure_threshold : ℕ
  pub success_threshold : ℕ
  pub cooldown_ms : ℕ

abbrev pub default_options : CircuitBreakerOptions
default_options = record { failure_threshold = 5; success_threshold = 2; cooldown_ms = 30000 }

pub record CircuitBreaker : Type 0 where
  pub state : CircuitState
  pub failure_count : ℕ
  pub success_count : ℕ
  pub opened_at : Option ℕ

abbrev pub new_circuit_breaker : CircuitBreaker
new_circuit_breaker = record {
  state = closed;
  failure_count = 0;
  success_count = 0;
  opened_at = none;
}

abbrev pub half_opened : CircuitBreaker → CircuitBreaker
half_opened b = record b { state = half_open; success_count = 0; failure_count = 0 }

-- The clock is not monotonic, so the time since the opening is an integer.
abbrev pub cooldown_elapsed : CircuitBreakerOptions → (now : ℕ) → Option ℕ → Bool
cooldown_elapsed options now none = false
cooldown_elapsed options now (some at) = leb_ℤ (pos options.cooldown_ms) (pos now -ℤ pos at)

unfoldable pub transition_if_cooldown_elapsed :
    CircuitBreakerOptions → (now : ℕ) → CircuitBreaker → CircuitBreaker
transition_if_cooldown_elapsed options now b = elim b.state [
  | open_circuit ↦ if cooldown_elapsed options now b.opened_at then half_opened b else b
  | closed ↦ b
  | half_open ↦ b
]

-- `++this.successCount`, and the breaker closed when there are enough
abbrev pub success_counted : CircuitBreakerOptions → CircuitBreaker → CircuitBreaker
success_counted options b =
    if leb options.success_threshold (b.success_count + 1)
    then record b { state = closed; failure_count = 0; success_count = 0; opened_at = none }
    else record b { success_count = b.success_count + 1 }

unfoldable pub on_success : CircuitBreakerOptions → CircuitBreaker → CircuitBreaker
on_success options b = elim b.state [
  | half_open ↦ success_counted options b
  | closed ↦ record b { failure_count = 0 }
  | open_circuit ↦ record b { failure_count = 0 }
]

abbrev pub failure_counted : CircuitBreakerOptions → (now : ℕ) → CircuitBreaker → CircuitBreaker
failure_counted options now b =
    if leb options.failure_threshold (b.failure_count + 1)
    then record b {
      state = open_circuit;
      failure_count = b.failure_count + 1;
      success_count = 0;
      opened_at = some now;
    }
    else record b { failure_count = b.failure_count + 1 }

unfoldable pub on_failure : CircuitBreakerOptions → (now : ℕ) → CircuitBreaker → CircuitBreaker
on_failure options now b = elim b.state [
  | half_open ↦ record b {
    state = open_circuit;
    opened_at = some now;
    failure_count = 0;
    success_count = 0;
  }
  | closed ↦ failure_counted options now b
  | open_circuit ↦ failure_counted options now b
]

abbrev pub is_open : CircuitState → Bool
is_open closed = false
is_open open_circuit = true
is_open half_open = false

-- What a caller of `call` sees: the error of an open breaker, or how the operation ended.
pub data Called : Type 0 where
  refused succeeded failed : Called

-- `call` with nothing in between: the operation ends well (`true`) or throws.
unfoldable pub call :
    CircuitBreakerOptions → (now later : ℕ) → Bool → CircuitBreaker → CircuitBreaker × Called
unfolding transition_if_cooldown_elapsed on_success on_failure
call options now later succeeds b =
    let ready = transition_if_cooldown_elapsed options now b in
    if is_open ready.state
    then (ready, refused)
    else if succeeds
    then (on_success options ready, succeeded)
    else (on_failure options later ready, failed)
