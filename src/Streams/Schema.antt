-- ===== src/Streams/Schema.antt =====
-- The rows of a vesting stream and of the audit table (backend/prisma/schema.prisma), the sets of
-- statuses of backend/src/services/streamValidation.service.ts and streamTermination.service.ts, and
-- what the services answer.
use elite_work.Base.{ℕ, String, Bool, true, false, Option, List, [], ◌∷◌}
use elite_work.Base.Lists.{any}

pub data StreamStatus : Type 0 where
  active suspended terminated completed : StreamStatus

-- `===` on statuses
unfoldable pub same_status : StreamStatus → StreamStatus → Bool
same_status active active = true
same_status suspended suspended = true
same_status terminated terminated = true
same_status completed completed = true
same_status _ _ = false

abbrev pub includes : List StreamStatus → StreamStatus → Bool
includes xs s = any (same_status s) xs

pub record Stream : Type 0 where
  pub stream_id : String
  pub recipient : String
  pub unclaimed : String
  pub status : StreamStatus
  pub terminated_at : Option ℕ
  pub terminated_by : Option String
  pub termination_reason : Option String
  pub locked_at : Option ℕ
  pub locked_by : Option String
  pub lock_reason : Option String

pub data AdminAction : Type 0 where
  stream_lock stream_unlock stream_terminate : AdminAction

pub record AdminActionAudit : Type 0 where
  pub action : AdminAction
  pub actor_address : String
  pub target_reference : String
  pub note : Option String

-- `not_terminable` and `not_allowed` carry the status that they met; `locked` who locked the stream.
pub data StreamError : Type 0 where
  not_found unsigned : StreamError
  not_terminable not_allowed : StreamStatus → StreamError
  locked : Option String → StreamError

abbrev pub live_statuses : List StreamStatus
live_statuses = active ∷ suspended ∷ []

abbrev pub suspendable_statuses : List StreamStatus
suspendable_statuses = active ∷ []

abbrev pub resumable_statuses : List StreamStatus
resumable_statuses = suspended ∷ []

abbrev pub terminable_statuses : List StreamStatus
terminable_statuses = active ∷ suspended ∷ []

pub record LockStreamResult : Type 0 where
  pub stream_id : String
  pub locked_by : String
  pub locked_at : ℕ
  pub reason : Option String

pub record UnlockStreamResult : Type 0 where
  pub stream_id : String
  pub unlocked_by : String
  pub unlocked_at : ℕ
  pub reason : Option String

pub record TerminateStreamResult : Type 0 where
  pub stream_id : String
  pub status : StreamStatus
  pub previous_status : StreamStatus
  pub terminated_by : String
  pub terminated_at : ℕ
  pub reason : Option String
  pub signed_tx_xdr : Option String
  pub unclaimed : String
