-- ===== src/PayoutIntent.antt =====
-- backend/src/services/payoutIntent.service.ts: the intents that keep a payout from being made twice.
-- The table of intents is a parameter, keyed by the idempotency key; so are SHA-256, the lower case
-- of a text and the chain's answer about a transaction. The clock is an argument. A handler returns
-- the table besides its outcome, since it writes before it throws. Metrics and logs are left out.
pub mod Once
pub mod Reconcile
use Prim.Native.String.{◌++◌ as str_append, slice}
use text.Mathlib.Text.{◌==◌ as str_eq}
use elite_work.Base.{
  ℕ, zero, suc, ◌+◌, ◌≡◌, String, Bool, true, false, not, ◌||◌, Option, none, some, List, [], ◌∷◌,
}
use elite_work.Base.Tests.{if◌then◌else◌, get_or_else}
use elite_work.Base.Text.{Text, show_nat}
use elite_work.Base.Outcome.{Outcome, ok, throw}
use elite_work.Base.Table.{Table}

pub data PayoutIntentStatus : Type 0 where
  pending submitted confirmed failed : PayoutIntentStatus

-- `TERMINAL_STATUSES.includes(status)`
abbrev pub is_terminal : PayoutIntentStatus → Bool
is_terminal pending = false
is_terminal submitted = false
is_terminal confirmed = true
is_terminal failed = false

pub record PayoutIntentInput : Type 0 where
  pub idempotency_key : Option String
  pub kind : String
  pub trade_id : String
  pub milestone_index : Option ℕ
  pub amount_usdc : String
  pub destination : String
  pub requested_by : String

pub record PayoutIntent : Type 0 where
  pub idempotency_key : String
  pub kind : String
  pub trade_id : String
  pub milestone_index : Option ℕ
  pub amount_usdc : String
  pub destination : String
  pub requested_by : String
  pub status : PayoutIntentStatus
  pub tx_hash : Option String
  pub submitted_at : Option ℕ
  pub confirmed_at : Option ℕ
  pub last_error : Option String
  pub duplicate_attempts : ℕ

pub record PayoutIntentResult : Type 0 where
  pub intent : PayoutIntent
  pub duplicate : Bool

-- `not_found` is Prisma's P2025, from an update of a row that is not there.
pub data PayoutError : Type 0 where
  duplicate_payout : PayoutIntent → PayoutError
  not_found : PayoutError

-- The row that `claim` creates.
abbrev pub claimed : (key : String) → PayoutIntentInput → PayoutIntent
claimed key input = record {
  idempotency_key = key;
  kind = input.kind;
  trade_id = input.trade_id;
  milestone_index = input.milestone_index;
  amount_usdc = input.amount_usdc;
  destination = input.destination;
  requested_by = input.requested_by;
  status = pending;
  tx_hash = none;
  submitted_at = none;
  confirmed_at = none;
  last_error = none;
  duplicate_attempts = 0;
}

abbrev pub attempted_again : PayoutIntent → PayoutIntent
attempted_again r = record r { duplicate_attempts = r.duplicate_attempts + 1 }

abbrev pub was_submitted : (tx_hash : String) (now : ℕ) → PayoutIntent → PayoutIntent
was_submitted tx_hash now r = record r {
  status = submitted;
  tx_hash = some tx_hash;
  submitted_at = some now;
}

-- `...(txHash ? { txHash } : {})`
abbrev pub hash_or_kept : Option String → Option String → Option String
hash_or_kept none kept = kept
hash_or_kept (some h) kept = if str_eq h "" then kept else some h

abbrev pub was_confirmed : (tx_hash : Option String) (now : ℕ) → PayoutIntent → PayoutIntent
was_confirmed tx_hash now r = record r {
  status = confirmed;
  confirmed_at = some now;
  tx_hash = hash_or_kept tx_hash r.tx_hash;
}

-- `reason.slice(0, 2000)`: here by bytes, which are JavaScript's units where the reason is ASCII.
abbrev pub was_failed : (reason : String) → PayoutIntent → PayoutIntent
was_failed reason r = record r { status = failed; last_error = some (slice reason 0 2_000) }

-- The chain's answer about a transaction.
pub data ChainStatus : Type 0 where
  success chain_failed chain_not_found : ChainStatus

pub record Counts : Type 0 where
  pub scanned : ℕ
  pub confirmed : ℕ
  pub failed : ℕ
  pub pending : ℕ

-- `derivePayoutIdempotencyKey`: the hash and the texts of numbers are the platform's.
abbrev pub derive_payout_idempotency_key :
    (sha256_hex to_lower_case : String → String) (to_string : ℕ → String)
    → PayoutIntentInput
    → String
derive_payout_idempotency_key sha256_hex to_lower_case to_string input =
    let index : String = elim input.milestone_index [ none ↦ "-" | some i ↦ to_string i ] in
    str_append "derived:" (
      sha256_hex (
        str_append input.kind (
          str_append "|" (
            str_append input.trade_id (
              str_append "|" (
                str_append index (
                  str_append "|" (
                    str_append input.amount_usdc
                      (str_append "|" (to_lower_case input.destination))))))))))

-- `!txHash`
abbrev pub lacks_hash : Option String → Bool
lacks_hash none = true
lacks_hash (some h) = str_eq h ""

abbrev pub hash_text : Option String → String
hash_text none = ""
hash_text (some h) = h

abbrev pub counted_confirmed : Counts → Counts
counted_confirmed c = record c { confirmed = c.confirmed + 1 }

abbrev pub counted_failed : Counts → Counts
counted_failed c = record c { failed = c.failed + 1 }

abbrev pub counted_pending : Counts → Counts
counted_pending c = record c { pending = c.pending + 1 }

module _ (intents : Table String PayoutIntent) where
  open intents use {State, find_unique, update, create}

  abbrev pub Handled : Type 0 → Type 0
  Handled A = State × Outcome PayoutError A

  -- What a handler makes of an update: the new row, or the error of a missing one.
  abbrev pub row_or_throw : State → Option (PayoutIntent × State) → Handled PayoutIntent
  row_or_throw s none = (s, throw not_found)
  row_or_throw s (some (r, s')) = (s', ok r)

  abbrev pub duplicate_of : State → Option (PayoutIntent × State) → Handled PayoutIntentResult
  duplicate_of s none = (s, throw not_found)
  duplicate_of s (some (existing, s')) =
      if is_terminal existing.status
      then (s', throw (duplicate_payout existing))
      else (s', ok (record { intent = existing; duplicate = true }))

  unfoldable pub handle_existing : (key : String) → State → Handled PayoutIntentResult
  handle_existing key s = duplicate_of s (update key attempted_again s)

  -- The claim under a key, with what `create` made of the row.
  abbrev pub claimed_or_existing :
      (key : String) → PayoutIntent → State → Option State → Handled PayoutIntentResult
  claimed_or_existing key row s (some s') = (s', ok (record { intent = row; duplicate = false }))
  claimed_or_existing key row s none = handle_existing key s

  -- `claim`; `derived` is the key that the input gets where the caller sent none.
  unfoldable pub claim : (derived : String) → PayoutIntentInput → State → Handled PayoutIntentResult
  unfolding handle_existing
  claim derived input s =
      let key = get_or_else input.idempotency_key derived in
      claimed_or_existing key (claimed key input) s (create key (claimed key input) s)

  unfoldable pub record_submission : (key tx_hash : String) (now : ℕ) → State → Handled PayoutIntent
  record_submission key tx_hash now s = row_or_throw s (update key (was_submitted tx_hash now) s)

  unfoldable pub confirm :
      (key : String) (tx_hash : Option String) (now : ℕ) → State → Handled PayoutIntent
  confirm key tx_hash now s = row_or_throw s (update key (was_confirmed tx_hash now) s)

  unfoldable pub fail : (key reason : String) → State → Handled PayoutIntent
  fail key reason s = row_or_throw s (update key (was_failed reason) s)

  -- What a round does with its write: count it, or let the error through.
  abbrev pub then_count : Handled PayoutIntent → (Counts → Counts) → Counts → Handled Counts
  then_count (s, ok r) f c = (s, ok (f c))
  then_count (s, throw e) f c = (s, throw e)

  -- One round of the loop of `reconcile`.
  unfoldable pub reconcile_one :
      (lookup : String → ChainStatus) (now : ℕ) → PayoutIntent → State → Counts → Handled Counts
  unfolding fail confirm
  reconcile_one lookup now intent s c =
      if lacks_hash intent.tx_hash
      then then_count (fail intent.idempotency_key "Reconciled: no transaction was submitted" s)
          counted_failed c
      else elim (lookup (hash_text intent.tx_hash)) [
        | success ↦ then_count (confirm intent.idempotency_key none now s) counted_confirmed c
        | chain_failed ↦
            then_count (fail intent.idempotency_key "Reconciled: transaction failed on-chain" s)
              counted_failed c
        | chain_not_found ↦ (s, ok (counted_pending c))
      ]

  -- The next round, behind one that did not throw.
  abbrev pub in_turn : (State → Counts → Handled Counts) → Handled Counts → Handled Counts
  in_turn next (s, ok c) = next s (record c { scanned = c.scanned + 1 })
  in_turn next (s, throw e) = (s, throw e)

  -- The loop, over the intents that `findUnresolved` read. `scanned` is counted as it goes.
  unfoldable pub reconcile_all :
      (lookup : String → ChainStatus) (now : ℕ)
      → List PayoutIntent
      → State
      → Counts
      → Handled Counts
  unfolding reconcile_one
  reconcile_all lookup now [] s c = (s, ok c)
  reconcile_all lookup now (intent ∷ rest) s c =
      in_turn (reconcile_all lookup now rest) (reconcile_one lookup now intent s c)
