-- ===== src/Retry.antt =====
-- backend/src/lib/retry.ts: the classification of errors, and the loop that tries an operation again.
-- The operation is a parameter that tells, for its attempt and the time in milliseconds, when it is
-- done and what it gives, and a sleep is one that tells when it is over. `Math.random` is a parameter.
-- The clock does not fall behind the start of a run, so that no duration is negative.
-- What is recorded is the result of the run; logs are left out.
pub mod Bounded
use text.Mathlib.Text.{◌==◌ as str_eq}
use elite_work.Base.{
  ℕ, zero, suc, ◌+◌, ◌-◌, ◌*◌, ◌^◌, ◌≡◌, String, Bool, true, false, not, ◌&&◌, ◌||◌, Option, none,
  some, List, [], ◌∷◌, min,
}
use elite_work.Base.Tests.{ltb, leb, ◌==◌, if◌then◌else◌, get_or_else}
use elite_work.Base.Lists.{any, length, get_elem?}
use elite_work.Base.Outcome.{Outcome, ok, throw}

abbrev pub default_max_retries : ℕ
default_max_retries = 3

abbrev pub default_base_delay_ms : ℕ
default_base_delay_ms = 200

abbrev pub default_cap_ms : ℕ
default_cap_ms = 10_000

abbrev pub default_budget_ms : ℕ
default_budget_ms = 30_000

abbrev pub retryable_prisma_codes : List String
retryable_prisma_codes = "P1001" ∷ "P1002" ∷ "P1017" ∷ "P2024" ∷ "P2028" ∷ []

abbrev pub retryable_supabase_codes : List String
retryable_supabase_codes =
    "PGRST301" ∷ "57P01" ∷ "57P02" ∷ "57P03" ∷ "08006" ∷ "08001" ∷ "40001" ∷ "40P01" ∷ []

abbrev pub retryable_http_statuses : List ℕ
retryable_http_statuses = 429 ∷ 500 ∷ 502 ∷ 503 ∷ 504 ∷ []

abbrev pub is_client_error : ℕ → Bool
is_client_error status = leb 400 status && ltb status 500 && not (status == 429)

-- What the classification reads of an error, where it is there: the candidates for a status (a
-- number that is no positive integer counts as absent), the codes that are texts, and whether the
-- message names a failure of the network.
pub record ErrorLike : Type 0 where
  pub status : Option ℕ
  pub status_code : Option ℕ
  pub response_status : Option ℕ
  pub response_status_code : Option ℕ
  pub code : Option String
  pub nested_code : Option String
  pub is_network_error : Bool

abbrev pub first_positive : List (Option ℕ) → Option ℕ
first_positive [] = none
first_positive (none ∷ rest) = first_positive rest
first_positive (some zero ∷ rest) = first_positive rest
first_positive (some (suc n) ∷ rest) = some (suc n)

unfoldable pub extract_http_status : ErrorLike → Option ℕ
extract_http_status e =
    first_positive (e.status ∷ e.status_code ∷ e.response_status ∷ e.response_status_code ∷ [])

abbrev pub extract_prisma_code : ErrorLike → Option String
extract_prisma_code e = e.code

abbrev pub extract_supabase_code : ErrorLike → Option String
extract_supabase_code e = elim e.code [
  | none ↦ e.nested_code
  | some c ↦ if str_eq c "" then e.nested_code else some c
]

-- `code && codes.has(code)`
abbrev pub has_code : List String → Option String → Bool
has_code codes none = false
has_code codes (some c) = not (str_eq c "") && any (str_eq c) codes

unfoldable pub classify_error : ErrorLike → Bool
unfolding extract_http_status
classify_error e = elim (extract_http_status e) [
  | some n ↦ if is_client_error n then false else any (λ m. n == m) retryable_http_statuses
  | none ↦
      has_code retryable_prisma_codes (extract_prisma_code e)
      || has_code retryable_supabase_codes (extract_supabase_code e)
      || e.is_network_error
]

unfoldable pub is_retryable_network_error : ErrorLike → Bool
unfolding extract_http_status
is_retryable_network_error e = elim (extract_http_status e) [
  | none ↦ false
  | some n ↦ if n == 429 then true else leb 500 n && ltb n 600
]

abbrev pub delay_window : (attempt base_delay_ms cap_ms : ℕ) → ℕ
delay_window attempt base_delay_ms cap_ms = min cap_ms (base_delay_ms * 2 ^ attempt)

pub data RetryOutcome : Type 0 where
  success exhausted non_retryable budget_exceeded : RetryOutcome

pub record RetryOptions (E : Type 0) : Type 0 where
  pub max_retries : ℕ
  pub base_delay_ms : ℕ
  pub cap_ms : ℕ
  pub budget_ms : ℕ
  pub should_retry : E → Bool
  pub backoff_ms : Option (List ℕ)

abbrev pub default_options : RetryOptions ErrorLike
default_options = record {
  max_retries = default_max_retries;
  base_delay_ms = default_base_delay_ms;
  cap_ms = default_cap_ms;
  budget_ms = default_budget_ms;
  should_retry = classify_error;
  backoff_ms = none;
}

-- A run: what it gives, what it records, and when it ends.
pub record Run (E T : Type 0) : Type 0 where
  pub given : Outcome E T
  pub outcome : RetryOutcome
  pub attempts : ℕ
  pub ended_at : ℕ

-- `Math.floor(Math.random() * window)`, for each attempt.
abbrev pub Random : Type 0
Random = (attempt window : ℕ) → ℕ

unfoldable pub compute_jittered_delay : Random → (attempt base_delay_ms cap_ms : ℕ) → ℕ
compute_jittered_delay random attempt base_delay_ms cap_ms =
    random attempt (delay_window attempt base_delay_ms cap_ms)

unfoldable pub delay_ms : {E : Type 0} → Random → RetryOptions E → (attempt : ℕ) → ℕ
unfolding compute_jittered_delay
delay_ms random options attempt = elim options.backoff_ms [
  | none ↦ compute_jittered_delay random attempt options.base_delay_ms options.cap_ms
  | some delays ↦ get_or_else (get_elem? delays (min attempt (length delays - 1))) 0
]

-- `options.sleep`, or the timer: the time at which a sleep is over, by its attempt, its start and the
-- delay that was asked for.
abbrev pub Sleep : Type 0
Sleep = (attempt started delay_ms : ℕ) → ℕ

module _ {E T : Type 0} (operation : (attempt now : ℕ) → ℕ × Outcome E T) (random : Random)
    (sleep : Sleep) (options : RetryOptions E) (start_time : ℕ) where
  abbrev pub run : Outcome E T → RetryOutcome → (attempt ended : ℕ) → Run E T
  run given outcome attempt ended = record {
    given = given;
    outcome = outcome;
    attempts = attempt + 1;
    ended_at = ended;
  }

  -- The `catch` of the loop, with the rest of the loop for the attempt behind a sleep.
  abbrev pub caught : (attempt ended : ℕ) → E → Option (Run E T) → Option (Run E T)
  caught attempt ended error rest =
      if not (options.should_retry error)
      then some (run (throw error) non_retryable attempt ended)
      else if leb options.max_retries attempt
      then some (run (throw error) exhausted attempt ended)
      else if ltb options.budget_ms (ended - start_time + delay_ms random options attempt)
      then some (run (throw error) budget_exceeded attempt ended)
      else rest

  abbrev pub attempted : (attempt ended : ℕ) → Outcome E T → Option (Run E T) → Option (Run E T)
  attempted attempt ended (ok value) rest = some (run (ok value) success attempt ended)
  attempted attempt ended (throw error) rest = caught attempt ended error rest

  -- The loop, one unit of fuel to an attempt.
  unfoldable pub retry_from : (fuel attempt now : ℕ) → Option (Run E T)
  unfolding delay_ms
  retry_from zero attempt now = none
  retry_from (suc fuel) attempt now =
      let (ended, given) = operation attempt now in
      let rest =
        retry_from fuel (attempt + 1) (sleep attempt ended (delay_ms random options attempt)) in
      attempted attempt ended given rest

  unfoldable pub retry_async : Option (Run E T)
  unfolding retry_from
  retry_async = retry_from (options.max_retries + 1) 0 start_time
