-- ===== src/Trades.antt =====
-- backend/src/services/eventHandlers.ts and backend/src/types/events.ts: the status of a trade, as
-- the events of the escrow contract move it. The tables of trades, disputes and clawbacks are
-- parameters; the clock is an argument. The handlers run in a transaction of their caller, which is
-- rolled back when they throw, so a throw carries no state. What a handler gives to the webhooks is
-- part of its result; logs and metrics are left out, and so is the path for test doubles that lack
-- `findUnique`.
pub mod Schema
pub mod Flow
pub mod Events
pub mod Replay
pub mod Sync
pub mod Dispatch
use text.Mathlib.Text.{◌==◌ as str_eq}
use elite_work.Base.{
  ℕ, ◌+◌, ◌≡◌, String, Bool, true, false, ◌&&◌, Option, none, some, List, [], ◌∷◌,
}
use elite_work.Base.Tests.{◌==◌, if◌then◌else◌, get_or_else}
use elite_work.Base.Lists.{any}
use elite_work.Base.Outcome.{Outcome, ok, throw, ◌>>=◌}
use elite_work.Base.Table.{Table}
pub use elite_work.Trades.Schema.{
  TradeStatus, pending_signature, created, funded, delivered, completed, disputed, cancelled,
  expired, EventType, trade_created, trade_funded, delivery_confirmed, funds_released,
  dispute_initiated, dispute_resolved, stream_clawback, event_to_status, valid_predecessors,
  EventData, ParsedEvent, Trade, StreamClawbackEvent, Webhook, EventError, concurrency_conflict,
  refused,
}
unfoldable pub use elite_work.Trades.Schema.{same_trade_status}
use elite_work.Disputes.{Dispute, open_status, same_status, chain_resolved}

-- `validPredecessors && validPredecessors.includes(status)`
unfoldable pub is_expected : EventType → TradeStatus → Bool
unfolding same_trade_status
is_expected ty status = elim (valid_predecessors ty) [
  | none ↦ false
  | some statuses ↦ any (same_trade_status status) statuses
]

-- The row of a `TradeCreatePayload`; the database fills in what it lacks.
abbrev pub payload_row :
    ParsedEvent → (buyer seller : String) (amount : Option String) (now : ℕ) → Trade
payload_row event buyer seller amount now = record {
  trade_id = event.trade_id;
  buyer_address = buyer;
  seller_address = seller;
  amount_usdc = get_or_else amount "0";
  status = get_or_else (event_to_status event.event_type) created;
  version = 1;
  updated_at = now;
}

-- The `data` of an update: the status of the event, where it has one.
unfoldable pub moved : EventType → (now : ℕ) → Trade → Trade
moved ty now t = record t {
  status = get_or_else (event_to_status ty) t.status;
  version = t.version + 1;
  updated_at = now;
}

-- The `where` of `updateMany`: the row as it was read.
unfoldable pub is_current : ParsedEvent → Trade → Trade → Bool
unfolding same_trade_status
is_current event read t =
    str_eq t.trade_id event.trade_id
    && same_trade_status t.status read.status
    && t.version == read.version

abbrev pub ok_or_refused : {A : Type 0} → Option A → Outcome EventError A
ok_or_refused none = throw refused
ok_or_refused (some a) = ok a

-- The row that a dispute from the chain gets; the database numbers it.
abbrev pub disputed_row : (id : ℕ) → ParsedEvent → Dispute
disputed_row id event = record {
  id = id;
  trade_id = event.trade_id;
  initiator = get_or_else event.fields.initiator "";
  reason = get_or_else event.fields.reason "Dispute initiated on-chain";
  status = open_status;
  version = 0;
  resolved_at = none;
}

-- The `where` of the resolution.
unfoldable pub is_open_of : ParsedEvent → Dispute → Bool
unfolding same_status
is_open_of event d = str_eq d.trade_id event.trade_id && same_status d.status open_status

abbrev pub hooks : ParsedEvent → TradeStatus → List Webhook
hooks event status = record { trade_id = event.trade_id; status = status } ∷ []

abbrev pub clawback_row : ParsedEvent → (stream_id : String) (now : ℕ) → StreamClawbackEvent
clawback_row event stream_id now = record {
  stream_id = stream_id;
  admin = get_or_else event.fields.admin "";
  amount = get_or_else event.fields.amount "0";
  tx_hash = event.event_id;
  timestamp = now;
}

module _ (trades : Table String Trade) (disputes : Table String Dispute)
    (clawbacks : Table (String × String) StreamClawbackEvent) where
  -- What the transaction sees of the database.
  abbrev pub Database : Type 0
  Database = trades.State × disputes.State × clawbacks.State

  abbrev pub Handled : Type 0
  Handled = Outcome EventError (Database × List Webhook)

  -- The rest of the transition, for the trade that was read.
  unfoldable pub move_existing :
      ParsedEvent → Trade → (now : ℕ) → trades.State → Outcome EventError trades.State
  unfolding is_expected moved is_current
  move_existing event existing now s =
      let (s', count) =
        trades.update_many (is_current event existing) (moved event.event_type now) s in
      if is_expected event.event_type existing.status
      then if count == 0 then throw concurrency_conflict else ok s'
      else ok s

  unfoldable pub move_or_create :
      ParsedEvent
      → (payload : Trade) → Option Trade
      → (now : ℕ) → trades.State
      → Outcome EventError trades.State
  unfolding move_existing moved
  move_or_create event payload (some existing) now s = move_existing event existing now s
  move_or_create event payload none now s =
      ok_or_refused (trades.upsert event.trade_id (moved event.event_type now) payload s)

  unfoldable pub apply_status_transition :
      ParsedEvent → (payload : Trade) (now : ℕ) → trades.State → Outcome EventError trades.State
  unfolding move_or_create
  apply_status_transition event payload now s =
      move_or_create event payload (trades.find_unique s event.trade_id) now s

  unfoldable pub sync_dispute :
      ParsedEvent
      → (id : ℕ) (event_resolved : Bool) → Option Dispute
      → (now : ℕ) → disputes.State
      → Outcome EventError disputes.State
  unfolding is_open_of
  sync_dispute event id false none now s =
      ok_or_refused (disputes.create event.trade_id (disputed_row id event) s)
  sync_dispute event id false (some existing) now s = ok s
  sync_dispute event id true none now s = ok s
  sync_dispute event id true (some existing) now s =
      ok (disputes.update_many (is_open_of event) (chain_resolved now) s).0

  unfoldable pub sync_dispute_from_event :
      ParsedEvent
      → (id : ℕ) (event_resolved : Bool) (now : ℕ) → disputes.State
      → Outcome EventError disputes.State
  unfolding sync_dispute
  sync_dispute_from_event event id event_resolved now s =
      sync_dispute event id event_resolved (disputes.find_unique s event.trade_id) now s

  -- `(event.data.buyer as string) || ""`, and `String(amount_usdc ?? amount ?? "0")`
  unfoldable pub handle_trade_created : ParsedEvent → (now : ℕ) → Database → Handled
  unfolding apply_status_transition
  handle_trade_created event now (t, d, c) = do
    let fields = event.fields
    let amount = some (get_or_else fields.amount_usdc (get_or_else fields.amount "0"))
    let payload =
        payload_row event (get_or_else fields.buyer "") (get_or_else fields.seller "") amount now
    t' ← apply_status_transition event payload now t
    ok ((t', d, c), hooks event created)

  unfoldable pub handle_trade_funded : ParsedEvent → (now : ℕ) → Database → Handled
  unfolding apply_status_transition
  handle_trade_funded event now (t, d, c) = do
    t' ← apply_status_transition event (payload_row event "" "" none now) now t
    ok ((t', d, c), hooks event funded)

  unfoldable pub handle_delivery_confirmed : ParsedEvent → (now : ℕ) → Database → Handled
  unfolding apply_status_transition
  handle_delivery_confirmed event now (t, d, c) = do
    t' ← apply_status_transition event (payload_row event "" "" none now) now t
    ok ((t', d, c), hooks event delivered)

  unfoldable pub handle_funds_released : ParsedEvent → (now : ℕ) → Database → Handled
  unfolding apply_status_transition
  handle_funds_released event now (t, d, c) = do
    t' ← apply_status_transition event (payload_row event "" "" none now) now t
    ok ((t', d, c), hooks event completed)

  unfoldable pub handle_dispute_initiated : ParsedEvent → (id now : ℕ) → Database → Handled
  unfolding apply_status_transition sync_dispute_from_event
  handle_dispute_initiated event id now (t, d, c) = do
    t' ← apply_status_transition event (payload_row event "" "" none now) now t
    d' ← sync_dispute_from_event event id false now d
    ok ((t', d', c), hooks event disputed)

  unfoldable pub handle_dispute_resolved : ParsedEvent → (id now : ℕ) → Database → Handled
  unfolding apply_status_transition sync_dispute_from_event
  handle_dispute_resolved event id now (t, d, c) = do
    t' ← apply_status_transition event (payload_row event "" "" none now) now t
    d' ← sync_dispute_from_event event id true now d
    ok ((t', d', c), hooks event completed)

  -- `String(stream_id ?? streamId ?? tradeId)`
  unfoldable pub handle_stream_clawback : ParsedEvent → (now : ℕ) → Database → Handled
  handle_stream_clawback event now (t, d, c) =
      let fields = event.fields in
      let stream_id =
        get_or_else fields.stream_id (get_or_else fields.stream_id_camel event.trade_id) in
      if str_eq stream_id ""
      then ok ((t, d, c), [])
      else (ok_or_refused (
            clawbacks.upsert (stream_id, event.event_id) (λ r. r) (clawback_row event stream_id now)
              c)
          >>= λ c'. ok ((t, d, c'), []))

  -- The table of handlers.
  unfoldable pub handlers : EventType → ParsedEvent → (id now : ℕ) → Database → Handled
  unfolding handle_trade_created handle_trade_funded handle_delivery_confirmed handle_funds_released
      handle_dispute_initiated handle_dispute_resolved handle_stream_clawback
  handlers trade_created event id now s = handle_trade_created event now s
  handlers trade_funded event id now s = handle_trade_funded event now s
  handlers delivery_confirmed event id now s = handle_delivery_confirmed event now s
  handlers funds_released event id now s = handle_funds_released event now s
  handlers dispute_initiated event id now s = handle_dispute_initiated event id now s
  handlers dispute_resolved event id now s = handle_dispute_resolved event id now s
  handlers stream_clawback event id now s = handle_stream_clawback event now s

  unfoldable pub dispatch_event : ParsedEvent → (id now : ℕ) → Database → Handled
  unfolding handlers
  dispatch_event event id now s = handlers event.event_type event id now s
