-- ===== src/Trades/Schema.antt =====
-- backend/src/types/events.ts, the tables of backend/src/services/eventHandlers.ts and the rows of
-- backend/prisma/schema.prisma that the handlers write.
use elite_work.Base.{ℕ, String, Bool, true, false, Option, none, some, List, [], ◌∷◌}

pub data TradeStatus : Type 0 where
  pending_signature created funded delivered completed disputed cancelled expired : TradeStatus

pub data EventType : Type 0 where
  trade_created trade_funded delivery_confirmed funds_released : EventType
  dispute_initiated dispute_resolved stream_clawback : EventType

-- `===` on statuses
unfoldable pub same_trade_status : TradeStatus → TradeStatus → Bool
same_trade_status pending_signature pending_signature = true
same_trade_status created created = true
same_trade_status funded funded = true
same_trade_status delivered delivered = true
same_trade_status completed completed = true
same_trade_status disputed disputed = true
same_trade_status cancelled cancelled = true
same_trade_status expired expired = true
same_trade_status _ _ = false

-- `EVENT_TO_STATUS`
abbrev pub event_to_status : EventType → Option TradeStatus
event_to_status trade_created = some created
event_to_status trade_funded = some funded
event_to_status delivery_confirmed = some delivered
event_to_status funds_released = some completed
event_to_status dispute_initiated = some disputed
event_to_status dispute_resolved = some completed
event_to_status stream_clawback = none

-- `VALID_PREDECESSORS`
abbrev pub valid_predecessors : EventType → Option (List TradeStatus)
valid_predecessors trade_created = none
valid_predecessors trade_funded = some (created ∷ [])
valid_predecessors delivery_confirmed = some (funded ∷ [])
valid_predecessors funds_released = some (delivered ∷ [])
valid_predecessors dispute_initiated = some (funded ∷ delivered ∷ [])
valid_predecessors dispute_resolved = some (disputed ∷ [])
valid_predecessors stream_clawback = none

-- What the handlers read of `event.data`, where it is there; `stream_id_camel` is `streamId`.
pub record EventData : Type 0 where
  pub buyer : Option String
  pub seller : Option String
  pub amount_usdc : Option String
  pub amount : Option String
  pub initiator : Option String
  pub reason : Option String
  pub stream_id : Option String
  pub stream_id_camel : Option String
  pub admin : Option String

pub record ParsedEvent : Type 0 where
  pub event_type : EventType
  pub trade_id : String
  pub event_id : String
  pub fields : EventData

pub record Trade : Type 0 where
  pub trade_id : String
  pub buyer_address : String
  pub seller_address : String
  pub amount_usdc : String
  pub status : TradeStatus
  pub version : ℕ
  pub updated_at : ℕ

pub record StreamClawbackEvent : Type 0 where
  pub stream_id : String
  pub admin : String
  pub amount : String
  pub tx_hash : String
  pub timestamp : ℕ

-- `webhookService.dispatch(tradeId, status)`
pub record Webhook : Type 0 where
  pub trade_id : String
  pub status : TradeStatus

-- `refused` is an error of Prisma at a row that it does not take.
pub data EventError : Type 0 where
  concurrency_conflict refused : EventError
