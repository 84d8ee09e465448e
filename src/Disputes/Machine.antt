-- ===== src/Disputes/Machine.antt =====
-- The status machine: which transitions are valid, and that they only lead forward.
use elite_work.Base.{ℕ, ◌<◌, ◌≤◌, ◌≡◌, refl, true, false, arith}
use elite_work.Base.Outcome.{ok, throw}
use elite_work.Disputes.{
  DisputeStatus, open_status, under_review, resolved, closed, is_valid_transition,
  is_terminal_dispute_status, assert_valid_transition, status_transition_invalid,
}

-- The diagram of the mediator's transitions.
infix 40 ◌⟶◌ ◌⟶*◌
pub data ◌⟶◌ : DisputeStatus → DisputeStatus → Type 0 where
  review : open_status ⟶ under_review
  dismiss : open_status ⟶ closed
  settle : under_review ⟶ resolved
  abandon : under_review ⟶ closed

pub data ◌⟶*◌ (from : DisputeStatus) : DisputeStatus → Type 0 where
  here : from ⟶* from
  then : {s t : DisputeStatus} → from ⟶* s → s ⟶ t → from ⟶* t

step_of : (from to : DisputeStatus) → is_valid_transition from to ≡ true → from ⟶ to
unfolding is_valid_transition
step_of open_status under_review h = review
step_of open_status closed h = dismiss
step_of under_review resolved h = settle
step_of under_review closed h = abandon
step_of _ _ h = absurd (ground arith)

valid_of : {from to : DisputeStatus} → from ⟶ to → is_valid_transition from to ≡ true
unfolding is_valid_transition
valid_of review = refl
valid_of dismiss = refl
valid_of settle = refl
valid_of abandon = refl

-- The test accepts exactly the transitions of the diagram.
is_valid_transition_iff :
    (from to : DisputeStatus)
    → (is_valid_transition from to ≡ true → from ⟶ to)
      × (from ⟶ to → is_valid_transition from to ≡ true)
is_valid_transition_iff from to = (step_of from to, valid_of)

abbrev pub rank : DisputeStatus → ℕ
rank open_status = 0
rank under_review = 1
rank resolved = 2
rank closed = 2

⟶-rank : {s t : DisputeStatus} → s ⟶ t → rank s < rank t
⟶-rank review = omega arith
⟶-rank dismiss = omega arith
⟶-rank settle = omega arith
⟶-rank abandon = omega arith

-- A terminal status admits no transition, and from every other one a transition is left.
terminal_iff_stuck :
    (s : DisputeStatus)
    → (is_terminal_dispute_status s ≡ true
        → (t : DisputeStatus) → assert_valid_transition s t ≡ throw status_transition_invalid)
      × (is_terminal_dispute_status s ≡ false → assert_valid_transition s closed ≡ ok tt)
unfolding is_terminal_dispute_status assert_valid_transition
terminal_iff_stuck open_status = (λ h t. absurd (ground arith), λ h. refl)
terminal_iff_stuck under_review = (λ h t. absurd (ground arith), λ h. refl)
terminal_iff_stuck resolved = (λ h. (λ t. refl), λ h. absurd (ground arith))
terminal_iff_stuck closed = (λ h. (λ t. refl), λ h. absurd (ground arith))

-- However many transitions are made, the rank never falls, so no status comes back once it is left.
pub reach_rank : {s t : DisputeStatus} → s ⟶* t → rank s ≤ rank t
reach_rank here = omega arith
reach_rank (then r st) = omega (arith, reach_rank r, ⟶-rank st)

pub never_back : {s t : DisputeStatus} → s ⟶ t → ¬ (t ⟶* s)
never_back st r = omega (arith, ⟶-rank st, reach_rank r)
