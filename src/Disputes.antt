-- ===== src/Disputes.antt =====
-- backend/src/services/disputeTransitions.ts: the status machine of a dispute, its optimistic
-- concurrency, and its synchronisation from the chain. The table of disputes is a parameter, keyed
-- by `tradeId`; the clock is an argument. Each call on the table is one atomic step.
pub mod Machine
pub mod Concurrency
pub mod Sync
pub mod Invariant
use text.Mathlib.Text.{◌==◌ as str_eq}
use elite_work.Base.{
  ℕ, zero, suc, ◌+◌, ◌<◌, ◌≡◌, String, Bool, true, false, not, ◌&&◌, ◌||◌, Option, none, some, List,
  [], ◌∷◌,
}
use elite_work.Base.Tests.{ltb, ◌==◌, if◌then◌else◌}
use elite_work.Base.Lists.{any}
use elite_work.Base.Outcome.{Outcome, ok, throw, throw_if, ◌>>=◌, ◌>>◌}
use elite_work.Base.Table.{Table}

pub data DisputeStatus : Type 0 where
  open_status under_review resolved closed : DisputeStatus

-- `===` on statuses
unfoldable pub same_status : DisputeStatus → DisputeStatus → Bool
same_status open_status open_status = true
same_status under_review under_review = true
same_status resolved resolved = true
same_status closed closed = true
same_status _ _ = false

abbrev pub includes : List DisputeStatus → DisputeStatus → Bool
includes xs s = any (same_status s) xs

pub record Dispute : Type 0 where
  pub id : ℕ
  pub trade_id : String
  pub initiator : String
  pub reason : String
  pub status : DisputeStatus
  pub version : ℕ
  pub resolved_at : Option ℕ

-- `COMPLETED_DISPUTE_STATUSES`
abbrev pub completed_dispute_statuses : List DisputeStatus
completed_dispute_statuses = resolved ∷ closed ∷ []

-- `VALID_TRANSITIONS`
abbrev pub valid_transitions : DisputeStatus → List DisputeStatus
valid_transitions open_status = under_review ∷ closed ∷ []
valid_transitions under_review = resolved ∷ closed ∷ []
valid_transitions resolved = []
valid_transitions closed = []

unfoldable pub get_allowed_transitions : DisputeStatus → List DisputeStatus
get_allowed_transitions status = valid_transitions status

unfoldable pub is_valid_transition : DisputeStatus → DisputeStatus → Bool
unfolding get_allowed_transitions same_status
is_valid_transition from to = includes (get_allowed_transitions from) to

unfoldable pub is_terminal_dispute_status : DisputeStatus → Bool
unfolding same_status
is_terminal_dispute_status status = includes completed_dispute_statuses status

unfoldable pub resolved_at_for_status : DisputeStatus → (now : ℕ) → Option ℕ
unfolding same_status
resolved_at_for_status status now =
    if same_status status resolved || same_status status closed then some now else none

pub data DisputeError : Type 0 where
  status_transition_invalid status_conflict chain_sync_conflict create_conflict : DisputeError

unfoldable pub assert_valid_transition :
    (current requested : DisputeStatus) → Outcome DisputeError Unit
unfolding get_allowed_transitions same_status
assert_valid_transition current requested = do
  throw_if (not (includes (get_allowed_transitions current) requested)) status_transition_invalid
  ok tt

unfoldable pub assert_transition_applied : Bool → Outcome DisputeError Unit
assert_transition_applied applied = do throw_if (not applied) status_conflict; ok tt

-- `...(resolvedAt !== undefined && { resolvedAt })`
abbrev pub or_kept : Option ℕ → Option ℕ → Option ℕ
or_kept none kept = kept
or_kept (some at) kept = some at

-- The `data` of the update in `applyDisputeStatusTransition`.
unfoldable pub transitioned : DisputeStatus → (now : ℕ) → Dispute → Dispute
unfolding resolved_at_for_status
transitioned new_status now d = record d {
  status = new_status;
  version = d.version + 1;
  resolved_at = or_kept (resolved_at_for_status new_status now) d.resolved_at;
}

-- Its `where`: the row as it was read.
unfoldable pub is_as_read : Dispute → Dispute → Bool
unfolding same_status
is_as_read read d = d.id == read.id && same_status d.status read.status && d.version == read.version

-- The `where` and `data` of `syncDisputeResolvedFromChain`.
unfoldable pub is_active_as_read : Dispute → Dispute → Bool
unfolding same_status
is_active_as_read read d =
    d.id == read.id
    && includes (open_status ∷ under_review ∷ []) d.status
    && d.version == read.version

abbrev pub chain_resolved : (now : ℕ) → Dispute → Dispute
chain_resolved now d = record d {
  status = resolved;
  resolved_at = some now;
  version = d.version + 1;
}

-- `initiator || "unknown"`, and the row of an initiation that began on the chain. The database
-- numbers the row (`id`).
abbrev pub initiated : (id : ℕ) (trade_id initiator : String) → Dispute
initiated id trade_id initiator = record {
  id = id;
  trade_id = trade_id;
  initiator = if str_eq initiator "" then "unknown" else initiator;
  reason = "On-chain dispute initiation";
  status = open_status;
  version = 0;
  resolved_at = none;
}

module _ (disputes : Table String Dispute) where
  open disputes use {State, find_unique, update_many, create}

  unfoldable pub apply_dispute_status_transition :
      Dispute → DisputeStatus → (now : ℕ) → State → State × Bool
  unfolding transitioned is_as_read
  apply_dispute_status_transition read new_status now s =
      let (s', count) = update_many (is_as_read read) (transitioned new_status now) s in
      (s', ltb 0 count)

  -- The rest of the sync, for the dispute that was read.
  unfoldable pub resolve_active : Dispute → (now : ℕ) → State → Outcome DisputeError State
  unfolding is_active_as_read is_terminal_dispute_status
  resolve_active d now s =
      let (s', count) = update_many (is_active_as_read d) (chain_resolved now) s in
      if is_terminal_dispute_status d.status
      then ok s
      else if count == 0
      then throw chain_sync_conflict
      else ok s'

  unfoldable pub resolve_found : Option Dispute → (now : ℕ) → State → Outcome DisputeError State
  unfolding resolve_active
  resolve_found none now s = ok s
  resolve_found (some d) now s = resolve_active d now s

  unfoldable pub sync_dispute_resolved_from_chain :
      (trade_id : String) (now : ℕ) → State → Outcome DisputeError State
  unfolding resolve_found
  sync_dispute_resolved_from_chain trade_id now s = resolve_found (find_unique s trade_id) now s

  abbrev pub created_or_throw : Option State → Outcome DisputeError State
  created_or_throw none = throw create_conflict
  created_or_throw (some s) = ok s

  unfoldable pub initiate_unless :
      Option Dispute → (id : ℕ) (trade_id initiator : String) → State → Outcome DisputeError State
  initiate_unless (some existing) id trade_id initiator s = ok s
  initiate_unless none id trade_id initiator s =
      created_or_throw (create trade_id (initiated id trade_id initiator) s)

  unfoldable pub sync_dispute_initiated_from_chain :
      (id : ℕ) (trade_id initiator : String) → State → Outcome DisputeError State
  unfolding initiate_unless
  sync_dispute_initiated_from_chain id trade_id initiator s =
      initiate_unless (find_unique s trade_id) id trade_id initiator s
