-- ===== src/DeadlineExtension/Caps.antt =====
-- What the caps on the extensions of a deadline admit: the evaluation, the budget and the policy.
use elite_work.Base.{
  ℕ, suc, ◌+◌, ◌≤◌, ◌<◌, ◌≡◌, ◌≢◌, ◌↔◌, ◌⊎◌, inl, inr, sym, ap, ◌∙◌, true, false, none, some, arith,
}
use elite_work.Base.Tests.{Bool-cases}
use elite_work.Base.Int.{pos, ◌-ℤ◌, ◌≤ℤ◌}
use elite_work.Base.Outcome.{ok, throw}
use elite_work.DeadlineExtension.{
  rejected, no_deadline, ExtensionPolicy, TradeExtensionState, RequestedPolicy, extension_budget,
  evaluate_from, evaluate_extension, original_of, assert_policy_within_ceilings,
  assert_extension_allowed, extension_policy_ceiling_count, extension_policy_ceiling_secs,
}

-- The caps on an extension of the deadline `current`: the trade's time is not over, the new deadline is
-- later, an extension is left, and the total stays within the policy.
pub record IsPermitted (state : TradeExtensionState) (policy : ExtensionPolicy)
    (current new_deadline now : ℕ) : Type 0 where
  pub is_live : now < current
  pub is_later : current < new_deadline
  pub has_count : state.extensions_used < policy.max_extensions
  pub is_within :
      new_deadline ≤ original_of state.original_deadline current + policy.max_total_extension_secs

evaluate_from-IsPermitted :
    (state : TradeExtensionState) (policy : ExtensionPolicy) (current new_deadline now : ℕ)
    → (evaluate_from state policy current new_deadline now).allowed ≡ true
    → IsPermitted state policy current new_deadline now
unfolding evaluate_from ◌-ℤ◌
evaluate_from-IsPermitted state policy current new_deadline now h = record {
  is_live = ground (arith, h);
  is_later = ground (arith, h);
  has_count = ground (arith, h);
  is_within = ground (arith, h);
}

allowed_of :
    (state : TradeExtensionState) (policy : ExtensionPolicy) (current new_deadline now : ℕ)
    → IsPermitted state policy current new_deadline now
    → (evaluate_from state policy current new_deadline now).allowed ≡ true
unfolding evaluate_from ◌-ℤ◌
allowed_of state policy current new_deadline now h =
    ground (arith, h.is_live, h.is_later, h.has_count, h.is_within)

-- For a trade with a deadline the evaluation allows exactly the extensions within the caps: the
-- deadline is not over, the new one is later, fewer extensions than the policy's count are used, and the
-- new one is at most the policy's total behind the original one.
pub evaluate_from_iff :
    (state : TradeExtensionState) (policy : ExtensionPolicy) (current new_deadline now : ℕ)
    → state.current_deadline ≡ some current
    → ((evaluate_extension state new_deadline now policy).allowed ≡ true)
      ↔ IsPermitted state policy current new_deadline now
unfolding evaluate_extension
evaluate_from_iff state policy current new_deadline now e =
    let opened : evaluate_extension state new_deadline now policy
        ≡ evaluate_from state policy current new_deadline now =
      ap
        (λ o. elim o [
          | none ↦ rejected no_deadline (extension_budget state policy)
          | some c ↦ evaluate_from state policy c new_deadline now
        ])
        e in
    (
      λ h.
          evaluate_from-IsPermitted state policy current new_deadline now
            (sym (ap (λ v. v.allowed) opened) ∙ h),
      λ h. ap (λ v. v.allowed) opened ∙ allowed_of state policy current new_deadline now h,
    )

spare_of :
    (state : TradeExtensionState) (policy : ExtensionPolicy) (current : ℕ)
    → state.current_deadline ≡ some current
    → original_of state.original_deadline current ≤ current
    → let budget = extension_budget state policy in
      (budget.is_exhausted ≡ false
        → (state.extensions_used < policy.max_extensions)
          × (current
              < original_of state.original_deadline current + policy.max_total_extension_secs))
      × (budget.is_exhausted ≡ true
          → (policy.max_extensions ≤ state.extensions_used)
            ⊎ (original_of state.original_deadline current + policy.max_total_extension_secs
                ≤ current))
unfolding extension_budget
spare_of state policy current e h = ground (arith, e, h)

-- For a live trade whose deadline is not before its original one: where the budget says that it is
-- exhausted no new deadline is allowed, and where not, a deadline one second later is.
exhausted_iff :
    (state : TradeExtensionState) (policy : ExtensionPolicy) (current now : ℕ)
    → state.current_deadline ≡ some current
    → original_of state.original_deadline current ≤ current
    → now < current
    → ((extension_budget state policy).is_exhausted ≡ true
        → (new_deadline : ℕ) → (evaluate_extension state new_deadline now policy).allowed ≡ false)
      × ((extension_budget state policy).is_exhausted ≡ false
          → (evaluate_extension state (suc current) now policy).allowed ≡ true)
exhausted_iff state policy current now e h live =
    let (spare, spent) = spare_of state policy current e h in
    let iff = λ (new : ℕ). evaluate_from_iff state policy current new now e in
    (
      λ full new. elim (Bool-cases (evaluate_extension state new now policy).allowed) [
        | inl permitted ↦ absurd (over (spent full) ((iff new).0 permitted))
        | inr refused ↦ refused
      ],
      λ left. (iff (suc current)).1 (record {
        is_live = live;
        is_later = omega arith;
        has_count = (spare left).0;
        is_within = (spare left).1;
      }),
    )
  where
    over :
        {new : ℕ}
        → (policy.max_extensions ≤ state.extensions_used)
          ⊎ (original_of state.original_deadline current + policy.max_total_extension_secs
              ≤ current)
        → ¬ IsPermitted state policy current new now
    over (inl count) p = omega (arith, count, p.has_count)
    over (inr time) p = omega (arith, time, p.is_within, p.is_later)

-- The service's assertion returns the budget exactly when the evaluation allows the extension, and
-- otherwise throws with the reason of the refusal and the same budget.
pub assert_extension_allowed-accounts :
    (policy : ExtensionPolicy) (state : TradeExtensionState) (new_deadline now : ℕ)
    → let budget = extension_budget state policy in
      let evaluation = evaluate_extension state new_deadline now policy in
      (evaluation.allowed ≡ true
        → assert_extension_allowed policy state new_deadline now ≡ ok budget)
      × (evaluation.allowed ≡ false
          → (evaluation.rejection ≢ none)
            × (assert_extension_allowed policy state new_deadline now
                ≡ throw (evaluation.rejection, budget)))
unfolding assert_extension_allowed evaluate_extension evaluate_from
assert_extension_allowed-accounts policy state new_deadline now = ground arith

-- A policy is accepted exactly when both fields are from 0 up to their ceilings.
pub assert_policy_iff :
    (policy : RequestedPolicy)
    → (assert_policy_within_ceilings policy ≡ ok tt) ↔ (
        (pos 0 ≤ℤ policy.max_extensions)
        × (policy.max_extensions ≤ℤ pos extension_policy_ceiling_count)
        × (pos 0 ≤ℤ policy.max_total_extension_secs)
        × (policy.max_total_extension_secs ≤ℤ pos extension_policy_ceiling_secs))
unfolding assert_policy_within_ceilings
assert_policy_iff policy = ground arith
