-- ===== src/Streams.antt =====
-- backend/src/services/streamLock.service.ts, streamTermination.service.ts and
-- streamValidation.service.ts: what an administrator does with a vesting stream. The table of streams
-- is a parameter; the audit table, which is only appended to, is the list of its rows. The clock and
-- the signature of a transaction are arguments. Notifications and the cache are left out.
pub mod Schema
pub mod Locking
pub mod Termination
use text.Mathlib.Text.{◌==◌ as str_eq}
use elite_work.Base.{
  ℕ, ◌≡◌, String, Bool, true, false, not, Option, none, some, List, [], ◌∷◌, ◌++◌,
}
use elite_work.Base.Tests.{if◌then◌else◌, is_none}
use elite_work.Base.Lists.{any}
use elite_work.Base.Outcome.{Outcome, ok, throw, throw_if, ◌>>=◌, ◌>>◌}
use elite_work.Base.Table.{Table}
pub use elite_work.Streams.Schema.{
  StreamStatus, active, suspended, terminated, completed, includes, Stream, AdminAction,
  stream_lock, stream_unlock, stream_terminate, AdminActionAudit, StreamError, not_found, unsigned,
  not_terminable, not_allowed, locked, live_statuses, suspendable_statuses, resumable_statuses,
  terminable_statuses, LockStreamResult, UnlockStreamResult, TerminateStreamResult,
}
unfoldable pub use elite_work.Streams.Schema.{same_status}

unfoldable pub assert_status_allowed : Stream → List StreamStatus → Outcome StreamError Unit
unfolding same_status
assert_status_allowed stream allowed = do
  throw_if (not (includes allowed stream.status)) (not_allowed stream.status)
  ok tt

unfoldable pub assert_not_locked : Stream → Outcome StreamError Unit
assert_not_locked stream = do
  throw_if (not (is_none stream.locked_at)) (locked stream.locked_by)
  ok tt

abbrev pub lock_result :
    (stream_id by : String) (at : ℕ) (reason : Option String) → LockStreamResult
lock_result stream_id by at reason = record {
  stream_id = stream_id;
  locked_by = by;
  locked_at = at;
  reason = reason;
}

abbrev pub unlock_result :
    (stream_id by : String) (at : ℕ) (reason : Option String) → UnlockStreamResult
unlock_result stream_id by at reason = record {
  stream_id = stream_id;
  unlocked_by = by;
  unlocked_at = at;
  reason = reason;
}

abbrev pub terminate_result :
    StreamStatus
    → (admin : String) (reason : Option String) (now : ℕ) (stream_id : String) (xdr : Option String)
    → Stream
    → TerminateStreamResult
terminate_result previous admin reason now stream_id xdr r = record {
  stream_id = stream_id;
  status = r.status;
  previous_status = previous;
  terminated_by = admin;
  terminated_at = now;
  reason = reason;
  signed_tx_xdr = xdr;
  unclaimed = r.unclaimed;
}

-- The `data` of the updates.
abbrev pub locked_row : (admin : String) (reason : Option String) (now : ℕ) → Stream → Stream
locked_row admin reason now r = record r {
  locked_at = some now;
  locked_by = some admin;
  lock_reason = reason;
}

abbrev pub unlocked_row : Stream → Stream
unlocked_row r = record r { locked_at = none; locked_by = none; lock_reason = none }

abbrev pub terminated_row : (admin : String) (reason : Option String) (now : ℕ) → Stream → Stream
terminated_row admin reason now r = record r {
  status = terminated;
  terminated_at = some now;
  terminated_by = some admin;
  termination_reason = reason;
}

abbrev pub audit :
    AdminAction → (admin stream_id : String) (reason : Option String) → AdminActionAudit
audit action admin stream_id reason = record {
  action = action;
  actor_address = admin;
  target_reference = stream_id;
  note = reason;
}

-- The signature of the transaction, where there is one; signing may throw.
abbrev pub signed_by :
    (sign : String → Option String) → Option String → Outcome StreamError (Option String)
signed_by sign none = ok none
signed_by sign (some xdr) =
    if str_eq xdr ""
    then ok none
    else elim (sign xdr) [ none ↦ throw unsigned | some x ↦ ok (some x) ]

module _ (streams : Table String Stream) where
  open streams use {State, find_unique, update}

  -- The streams, and the audit rows in order.
  abbrev pub Database : Type 0
  Database = State × List AdminActionAudit

  abbrev pub Handled : Type 0 → Type 0
  Handled A = Database × Outcome StreamError A

  -- Behind an update: the audit row and the result, or the error of a row that is gone.
  abbrev pub audited :
      {A : Type 0}
      → Database
      → AdminActionAudit
      → (Stream → A)
      → Option (Stream × State)
      → Handled A
  audited (s, audits) row f none = ((s, audits), throw not_found)
  audited (s, audits) row f (some (r, s')) = ((s', audits ++ row ∷ []), ok (f r))

  unfoldable pub lock_read :
      (stream_id admin : String) (reason : Option String) (now : ℕ)
      → Option Stream
      → Database
      → Handled LockStreamResult
  lock_read stream_id admin reason now none db = (db, throw not_found)
  lock_read stream_id admin reason now (some stream) db = elim stream.locked_at [
    | some at ↦ (db, ok (lock_result stream_id "" at none))
    | none ↦
        audited db (audit stream_lock admin stream_id reason)
          (λ r. lock_result stream_id admin now reason)
          (update stream_id (locked_row admin reason now) db.0)
  ]

  unfoldable pub lock :
      (stream_id admin : String) (reason : Option String) (now : ℕ)
      → Database
      → Handled LockStreamResult
  unfolding lock_read
  lock stream_id admin reason now db =
      lock_read stream_id admin reason now (find_unique db.0 stream_id) db

  unfoldable pub unlock_read :
      (stream_id admin : String) (reason : Option String) (now : ℕ)
      → Option Stream
      → Database
      → Handled UnlockStreamResult
  unlock_read stream_id admin reason now none db = (db, throw not_found)
  unlock_read stream_id admin reason now (some stream) db = elim stream.locked_at [
    | none ↦ (db, ok (unlock_result stream_id "" now none))
    | some at ↦
        audited db (audit stream_unlock admin stream_id reason)
          (λ r. unlock_result stream_id admin now reason) (update stream_id unlocked_row db.0)
  ]

  unfoldable pub unlock :
      (stream_id admin : String) (reason : Option String) (now : ℕ)
      → Database
      → Handled UnlockStreamResult
  unfolding unlock_read
  unlock stream_id admin reason now db =
      unlock_read stream_id admin reason now (find_unique db.0 stream_id) db

  unfoldable pub get_stream_or_throw : (stream_id : String) → State → Outcome StreamError Stream
  get_stream_or_throw stream_id s = elim (find_unique s stream_id) [
    | none ↦ throw not_found
    | some r ↦ ok r
  ]

  unfoldable pub require_stream_not_locked : (stream_id : String) → State → Outcome StreamError Unit
  unfolding get_stream_or_throw assert_not_locked
  require_stream_not_locked stream_id s = do
    stream ← get_stream_or_throw stream_id s
    assert_not_locked stream

  unfoldable pub require_actionable_stream :
      (stream_id : String) → List StreamStatus → State → Outcome StreamError Stream
  unfolding get_stream_or_throw assert_status_allowed assert_not_locked
  require_actionable_stream stream_id allowed s = do
    stream ← get_stream_or_throw stream_id s
    assert_status_allowed stream allowed
    assert_not_locked stream
    ok stream

  -- The rest of the termination, for the stream that was read.
  unfoldable pub terminate_read :
      (sign : String → Option String) (stream_id admin : String)
      (reason unsigned_tx_xdr : Option String) (now : ℕ)
      → Option Stream
      → Database
      → Handled TerminateStreamResult
  unfolding same_status
  terminate_read sign stream_id admin reason unsigned_tx_xdr now none db = (db, throw not_found)
  terminate_read sign stream_id admin reason unsigned_tx_xdr now (some stream) db =
      if not (includes terminable_statuses stream.status)
      then (db, throw (not_terminable stream.status))
      else elim (signed_by sign unsigned_tx_xdr) [
        | throw e ↦ (db, throw e)
        | ok xdr ↦
            audited db (audit stream_terminate admin stream_id reason)
              (terminate_result stream.status admin reason now stream_id xdr)
              (update stream_id (terminated_row admin reason now) db.0)
      ]

  unfoldable pub terminate :
      (sign : String → Option String) (stream_id admin : String)
      (reason unsigned_tx_xdr : Option String) (now : ℕ)
      → Database
      → Handled TerminateStreamResult
  unfolding terminate_read
  terminate sign stream_id admin reason unsigned_tx_xdr now db =
      terminate_read sign stream_id admin reason unsigned_tx_xdr now (find_unique db.0 stream_id) db
