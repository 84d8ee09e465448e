-- ===== src/Tests/Records.antt =====
-- Disputes and payout intents in a table of concrete rows.
use text.Mathlib.Text.{◌==◌ as str_eq}
use text.Mathlib.TextEquality.{eq_iff}
use elite_work.Base.{◌+◌, ◌≡◌, ◌≢◌, refl, String, true, false, none, some, [], ◌∷◌, arith}
use elite_work.Base.Outcome.{ok, throw}
use elite_work.Base.Table.{Table}
use elite_work.Base.Table.Keyed.{keyed_by_text, lookup}
use elite_work.Disputes.{
  Dispute, open_status, under_review, closed, same_status, get_allowed_transitions,
  apply_dispute_status_transition, transitioned, is_valid_transition, is_terminal_dispute_status,
  resolve_active, chain_sync_conflict,
}
use elite_work.Disputes.Machine.{◌⟶*◌, review, never_back}
use elite_work.Disputes.Concurrency.{race}
use elite_work.Disputes.Sync.{resolve_active_conflict}
use elite_work.Disputes.Invariant.{AllStamped, Step, Reach, Reach-AllStamped}
use elite_work.PayoutIntent.{
  PayoutIntent, PayoutIntentInput, PayoutIntentResult, Counts, claimed, claim, fail,
  attempted_again, was_failed, reconcile_all, chain_not_found, ChainStatus,
}
use elite_work.PayoutIntent.Once.{
  claimed_once, claim-fresh, claim-taken, claim-failed, Reach as Payouts,
}
use elite_work.PayoutIntent.Reconcile.{classified, IsLeftAlone, reconcile_all-accounts}

abbrev disputes : Table String Dispute
disputes = keyed_by_text Dispute

abbrev dispute : Dispute
dispute = record {
  id = 7;
  trade_id = "t-1";
  initiator = "GBUYER";
  reason = "late";
  status = open_status;
  version = 4;
  resolved_at = none;
}

only_row : lookup String str_eq eq_iff Dispute [] "t-1" ≡ none
unfolding lookup
only_row = refl

abbrev docket : disputes.State
docket = (("t-1", dispute) ∷ [], (only_row, tt))

found : disputes.find_unique docket "t-1" ≡ some dispute
unfolding lookup
found = refl

race_example :
    let (s₁, applied₁) = apply_dispute_status_transition disputes dispute under_review 10 docket in
    let (s₂, applied₂) = apply_dispute_status_transition disputes dispute closed 11 s₁ in
    (applied₁ ≡ true)
    × (applied₂ ≡ false)
    × (disputes.find_unique s₁ "t-1" ≡ some (transitioned under_review 10 dispute))
    × ((j : String) → disputes.find_unique s₂ j ≡ disputes.find_unique s₁ j)
race_example = race disputes docket "t-1" dispute under_review closed 10 11 found

-- The dispute as a chain sync had read it before version 4.
abbrev stale : Dispute
stale = record dispute { version = 3 }

moved :
    (j : String) (r : Dispute) → disputes.find_unique docket j ≡ some r → r.id ≡ 7 → r.version ≢ 3
unfolding lookup
moved j r e same = ground (arith, e)

is_live : is_terminal_dispute_status stale.status ≡ false
unfolding is_terminal_dispute_status same_status
is_live = refl

resolve_active_conflict_example :
    resolve_active disputes stale 12 docket ≡ throw chain_sync_conflict
resolve_active_conflict_example = resolve_active_conflict disputes docket stale 12 is_live moved

review_is_valid : is_valid_transition open_status under_review ≡ true
unfolding is_valid_transition get_allowed_transitions same_status
review_is_valid = refl

docket-AllStamped : AllStamped disputes docket
unfolding lookup is_terminal_dispute_status same_status
docket-AllStamped k d e = ground (arith, e)

-- A mediator takes the dispute under review.
abbrev reviewed : disputes.State
reviewed = (apply_dispute_status_transition disputes dispute under_review 10 docket).0

Reach-AllStamped_example : AllStamped disputes reviewed
Reach-AllStamped_example =
    Reach-AllStamped disputes
      (Reach.next Reach.here (Step.mediate dispute under_review 10 review_is_valid))
      docket-AllStamped

never_back_example : ¬ (under_review ⟶* open_status)
never_back_example = never_back review

abbrev intents : Table String PayoutIntent
intents = keyed_by_text PayoutIntent

abbrev input : PayoutIntentInput
input = record {
  idempotency_key = some "release-1";
  kind = "MILESTONE_RELEASE";
  trade_id = "t-1";
  milestone_index = some 0;
  amount_usdc = "12.5";
  destination = "GSELLER";
  requested_by = "GBUYER";
}

abbrev intent : PayoutIntent
intent = claimed "release-1" input

no_other : lookup String str_eq eq_iff PayoutIntent [] "release-1" ≡ none
unfolding lookup
no_other = refl

abbrev book : intents.State
book = (("release-1", intent) ∷ [], (no_other, tt))

booked : intents.find_unique book "release-1" ≡ some intent
unfolding lookup
booked = refl

abbrev no_intents : intents.State
no_intents = ([], tt)

free : intents.find_unique no_intents "release-1" ≡ none
unfolding lookup
free = refl

-- The table behind a first claim, and what a second one answers.
abbrev claimed_state : intents.State
claimed_state = (claim intents "" input no_intents).0

abbrev second_claim : PayoutIntentResult
second_claim = record { intent = attempted_again intent; duplicate = true }

second : (claim intents "" input claimed_state).1 ≡ ok second_claim
second =
    (claim-taken intents "" input claimed_state intent
      (claim-fresh intents "" input no_intents free).1).0

claimed_once_example : second_claim.duplicate ≡ true
claimed_once_example =
    claimed_once intents "" "" input input no_intents claimed_state second_claim refl Payouts.here
      second

claim-failed_example :
    (claim intents "" input (fail intents "release-1" "rejected" book).0).1
    ≡ ok (record { intent = attempted_again (was_failed "rejected" intent); duplicate = true })
claim-failed_example = claim-failed intents "" "release-1" "rejected" input book intent refl booked

abbrev nothing_counted : Counts
nothing_counted = record { scanned = 0; confirmed = 0; failed = 0; pending = 0 }

-- The chain knows of no transaction.
abbrev knows_none : String → ChainStatus
knows_none h = chain_not_found

booked_ne : intents.find_unique book "release-1" ≢ none
unfolding lookup
booked_ne e = cc

reconcile_all-accounts_example :
    (s' : intents.State) × (c' : Counts) × (reconcile_all intents knows_none 30
        (intent ∷ [])
        book
        nothing_counted
      ≡ (s', ok c'))
    × (c'.scanned ≡ 0 + 1)
    × (classified c' ≡ 0 + 1)
    × ((j : String)
        → IsLeftAlone intents knows_none 30 (intent ∷ []) j
        → intents.find_unique s' j ≡ intents.find_unique book j)
reconcile_all-accounts_example =
    reconcile_all-accounts intents knows_none 30 (intent ∷ []) book nothing_counted (booked_ne, tt)
