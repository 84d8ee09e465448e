-- ===== src/DeadlineExtension.antt =====
-- backend/src/services/deadlineExtension.service.ts: the caps on the extensions of a trade's
-- deadline. Times and counts are natural numbers; a subtraction that the code guards with
-- `Math.max(0, …)` is the one that stops at 0. The messages of the errors are left out.
pub mod Caps
use elite_work.Base.{ℕ, ◌+◌, ◌-◌, ◌*◌, ◌≡◌, String, Bool, true, false, ◌||◌, Option, none, some}
use elite_work.Base.Tests.{ltb, leb, ◌==◌, if◌then◌else◌}
use elite_work.Base.Int.{ℤ, pos, negsuc, ◌-ℤ◌, ltb_ℤ, leb_ℤ}
use elite_work.Base.Outcome.{Outcome, ok, throw, throw_if, ◌>>=◌, ◌>>◌}

abbrev pub default_max_extensions : ℕ
default_max_extensions = 3

abbrev pub default_max_total_extension_secs : ℕ
default_max_total_extension_secs = 2592000

abbrev pub extension_policy_ceiling_count : ℕ
extension_policy_ceiling_count = 12

abbrev pub extension_policy_ceiling_secs : ℕ
extension_policy_ceiling_secs = 31536000

pub record ExtensionPolicy : Type 0 where
  pub max_extensions : ℕ
  pub max_total_extension_secs : ℕ

abbrev pub default_extension_policy : ExtensionPolicy
default_extension_policy = record {
  max_extensions = default_max_extensions;
  max_total_extension_secs = default_max_total_extension_secs;
}

pub record TradeExtensionState : Type 0 where
  pub trade_id : String
  pub extensions_used : ℕ
  pub original_deadline : Option ℕ
  pub current_deadline : Option ℕ

pub record ExtensionBudget : Type 0 where
  pub trade_id : String
  pub extensions_used : ℕ
  pub extensions_remaining : ℕ
  pub original_deadline : Option ℕ
  pub extended_by_secs : ℕ
  pub extension_secs_remaining : ℕ
  pub is_final_extension : Bool
  pub is_exhausted : Bool

pub data ExtensionRejection : Type 0 where
  no_deadline count_exhausted lifetime_cap_exceeded not_in_future : ExtensionRejection
  not_later_than_current already_expired : ExtensionRejection

-- An evaluation, less the text of its reason.
pub record ExtensionEvaluation : Type 0 where
  pub allowed : Bool
  pub rejection : Option ExtensionRejection
  pub budget : ExtensionBudget

-- `a ?? b` on two optional deadlines
abbrev pub or_else : Option ℕ → Option ℕ → Option ℕ
or_else (some a) b = some a
or_else none b = b

-- `Math.max(0, currentDeadline - originalDeadline)`, and 0 where either is null
abbrev pub extended_by : (original current : Option ℕ) → ℕ
extended_by (some original) (some current) = current - original
extended_by _ _ = 0

unfoldable pub extension_budget : TradeExtensionState → ExtensionPolicy → ExtensionBudget
extension_budget state policy =
    let original = or_else state.original_deadline state.current_deadline in
    let extended = extended_by original state.current_deadline in
    let remaining = policy.max_extensions - state.extensions_used in
    let secs_remaining = policy.max_total_extension_secs - extended in
    record {
      trade_id = state.trade_id;
      extensions_used = state.extensions_used;
      extensions_remaining = remaining;
      original_deadline = original;
      extended_by_secs = extended;
      extension_secs_remaining = secs_remaining;
      is_final_extension = remaining == 1;
      is_exhausted = remaining == 0 || secs_remaining == 0;
    }

abbrev pub rejected : ExtensionRejection → ExtensionBudget → ExtensionEvaluation
rejected why budget = record { allowed = false; rejection = some why; budget = budget }

abbrev pub accepted : ExtensionBudget → ExtensionEvaluation
accepted budget = record { allowed = true; rejection = none; budget = budget }

-- `state.originalDeadline ?? state.currentDeadline` behind the check that the latter is there
abbrev pub original_of : Option ℕ → (current : ℕ) → ℕ
original_of (some original) current = original
original_of none current = current

-- The checks on a trade that has a deadline. The difference of the deadlines is an integer.
unfoldable pub evaluate_from :
    TradeExtensionState → ExtensionPolicy → (current new_deadline now : ℕ) → ExtensionEvaluation
unfolding extension_budget
evaluate_from state policy current new_deadline now =
    let budget = extension_budget state policy in
    let original = original_of state.original_deadline current in
    let extended_by_secs = pos new_deadline -ℤ pos original in
    if leb current now
    then rejected already_expired budget
    else if leb new_deadline now
    then rejected not_in_future budget
    else if leb new_deadline current
    then rejected not_later_than_current budget
    else if leb policy.max_extensions state.extensions_used
    then rejected count_exhausted budget
    else if ltb_ℤ (pos policy.max_total_extension_secs) extended_by_secs
    then rejected lifetime_cap_exceeded budget
    else accepted budget

unfoldable pub evaluate_extension :
    TradeExtensionState → (new_deadline now : ℕ) → ExtensionPolicy → ExtensionEvaluation
unfolding evaluate_from
evaluate_extension state new_deadline now policy = elim state.current_deadline [
  | none ↦ rejected no_deadline (extension_budget state policy)
  | some current ↦ evaluate_from state policy current new_deadline now
]

pub data PolicyError : Type 0 where
  extensions_negative secs_negative extensions_over_ceiling secs_over_ceiling : PolicyError

-- A policy as an administrator supplies it, whose fields may be negative.
pub record RequestedPolicy : Type 0 where
  pub max_extensions : ℤ
  pub max_total_extension_secs : ℤ

unfoldable pub assert_policy_within_ceilings : RequestedPolicy → Outcome PolicyError Unit
assert_policy_within_ceilings policy = do
  throw_if (ltb_ℤ policy.max_extensions (pos 0)) extensions_negative
  throw_if (ltb_ℤ policy.max_total_extension_secs (pos 0)) secs_negative
  throw_if (ltb_ℤ (pos extension_policy_ceiling_count) policy.max_extensions)
      extensions_over_ceiling
  throw_if (ltb_ℤ (pos extension_policy_ceiling_secs) policy.max_total_extension_secs)
      secs_over_ceiling
  ok tt

-- `DeadlineExtensionService`, for the policy that it was constructed with
unfoldable pub assert_extension_allowed :
    ExtensionPolicy
    → TradeExtensionState
    → (new_deadline now : ℕ) → Outcome (Option ExtensionRejection × ExtensionBudget) ExtensionBudget
unfolding evaluate_extension
assert_extension_allowed policy state new_deadline now =
    let evaluation = evaluate_extension state new_deadline now policy in
    if evaluation.allowed
    then ok evaluation.budget
    else throw (evaluation.rejection, evaluation.budget)
