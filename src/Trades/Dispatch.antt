-- ===== src/Trades/Dispatch.antt =====
-- `dispatchEvent` with an event that comes in its turn, and with one that comes again.
use text.Mathlib.Text.{◌==◌ as str_eq}
use elite_work.Base.{
  ℕ, ◌+◌, ◌≡◌, ◌⊎◌, inl, inr, refl, sym, ap, ◌∙◌, subst, String, Bool, true, false, Option, none,
  some, List, [],
}
use elite_work.Base.Tests.{Bool-cases, get_or_else}
use elite_work.Base.Outcome.{Outcome, ok, ◌>>=◌, >>=-eq-ok}
use elite_work.Base.Table.{Table}
use elite_work.Disputes.{Dispute}
use elite_work.Trades.{
  Trade, TradeStatus, event_to_status, ParsedEvent, EventType, EventError, Webhook,
  StreamClawbackEvent, is_expected, moved, apply_status_transition, clawback_row, dispatch_event,
  Database, payload_row, trade_created, trade_funded, delivery_confirmed, funds_released,
  dispute_initiated, dispute_resolved, stream_clawback, handle_trade_created, handle_trade_funded,
  handle_delivery_confirmed, handle_funds_released, handle_dispute_initiated,
  handle_dispute_resolved, handle_stream_clawback, handlers, hooks, created, funded, delivered,
  completed, disputed, ok_or_refused,
}
use elite_work.Trades.Flow.{Edge, Edge-expected}
use elite_work.Trades.Events.{accepted}
use elite_work.Trades.Replay.{ok_injective, IsOwn, apply_again, apply-moves}
use elite_work.Trades.Sync.{sync, sync_returns, Alike, initiated_again, resolved_again}

abbrev amount_of : ParsedEvent → Option String
amount_of event = some (get_or_else event.fields.amount_usdc (get_or_else event.fields.amount "0"))

abbrev stream_of : ParsedEvent → String
stream_of event =
    get_or_else event.fields.stream_id (get_or_else event.fields.stream_id_camel event.trade_id)

module _ (trades : Table String Trade) (disputes : Table String Dispute)
    (clawbacks : Table (String × String) StreamClawbackEvent) where
  abbrev apply : ParsedEvent → Trade → ℕ → trades.State → Outcome EventError trades.State
  apply = apply_status_transition trades disputes clawbacks

  abbrev Db : Type 0
  Db = Database trades disputes clawbacks

  -- Behind an event, the same event runs and changes no trade and no dispute.
  abbrev pub IsNoOp : Outcome EventError (Db × List Webhook) → Db → Type 0
  IsNoOp again db =
      (db' : Db) × (hooks : List Webhook) × (again ≡ ok (db', hooks))
      × (db'.0 ≡ db.0)
      × Alike trades disputes clawbacks db.1 db'.1

  -- A handler that moves its trade only.
  abbrev alone :
      ParsedEvent → Trade → ℕ → List Webhook → Db → Outcome EventError (Db × List Webhook)
  alone event payload now sent db =
      apply event payload now db.0 >>= λ t'. ok ((t', db.1, db.2), sent)

  -- One that synchronises the dispute besides.
  abbrev synced :
      ParsedEvent
      → Trade
      → (id : ℕ) → Bool
      → ℕ
      → List Webhook
      → Db
      → Outcome EventError (Db × List Webhook)
  synced event payload id event_resolved now sent db = apply event payload now db.0 >>= λ t'.
      sync trades disputes clawbacks event id event_resolved now db.1 >>= λ d'.
      ok ((t', d', db.2), sent)

  alone_again :
      (event : ParsedEvent) (buyer seller : String) (amount : Option String) (now now' : ℕ)
      (sent : List Webhook) (db : Db) (result : Db × List Webhook)
      → IsOwn trades disputes clawbacks event db.0
      → alone event (payload_row event buyer seller amount now) now sent db ≡ ok result
      → IsNoOp
          (alone event (payload_row event buyer seller amount now') now' sent result.0)
          result.0
  alone_again event buyer seller amount now now' sent db result own runs =
      let (t', ran, later) =
        >>=-eq-ok (apply event (payload_row event buyer seller amount now) now db.0) _ runs in
      let again =
        apply_again trades disputes clawbacks event buyer seller amount now now'
          (payload_row event buyer seller amount now') db.0 t' own ran in
      subst
        (λ (r : Db × List Webhook).
          IsNoOp (alone event (payload_row event buyer seller amount now') now' sent r.0) r.0)
        (ok_injective later)
        (
          (t', db.1, db.2),
          sent,
          ap (λ o. o >>= λ x. ok ((x, db.1, db.2), sent)) again,
          refl,
          λ k. refl,
        )

  synced_again :
      (event : ParsedEvent) (buyer seller : String) (amount : Option String) (id id' : ℕ)
      (event_resolved : Bool) (now now' : ℕ) (sent : List Webhook) (db : Db)
      (result : Db × List Webhook)
      → IsOwn trades disputes clawbacks event db.0
      → synced event (payload_row event buyer seller amount now) id event_resolved now sent db
        ≡ ok result
      → IsNoOp
          (synced event
            (payload_row event buyer seller amount now')
            id'
            event_resolved
            now'
            sent
            result.0)
          result.0
  synced_again event buyer seller amount id id' event_resolved now now' sent db result own runs =
      let (t', ran, later) =
        >>=-eq-ok (apply event (payload_row event buyer seller amount now) now db.0) _ runs in
      let (d', synchronised, last) =
        >>=-eq-ok (sync trades disputes clawbacks event id event_resolved now db.1) _ later in
      let again =
        apply_again trades disputes clawbacks event buyer seller amount now now'
          (payload_row event buyer seller amount now') db.0 t' own ran in
      let (d'', sync_again, alike) = sync_same event_resolved d' synchronised in
      subst
        (λ (r : Db × List Webhook).
          IsNoOp
            (synced event (payload_row event buyer seller amount now') id' event_resolved now' sent
              r.0)
            r.0)
        (ok_injective last) ((t', d'', db.2), sent, rw (again, sync_again) refl, refl, alike)
    where
      sync_same :
          (b : Bool) (d' : disputes.State)
          → sync trades disputes clawbacks event id b now db.1 ≡ ok d'
          → (d'' : disputes.State) × (sync trades disputes clawbacks event id' b now' d' ≡ ok d'')
            × Alike trades disputes clawbacks d' d''
      sync_same true d' ran =
          resolved_again trades disputes clawbacks event id id' now now' db.1 d' ran
      sync_same false d' ran =
          initiated_again trades disputes clawbacks event id id' now now' db.1 d' ran

  abbrev kept : ParsedEvent → ℕ → clawbacks.State → Outcome EventError clawbacks.State
  kept event now c = ok_or_refused (
      clawbacks.upsert (stream_of event, event.event_id) (λ r. r)
        (clawback_row event (stream_of event) now) c)

  named_handler :
      (event : ParsedEvent) (now : ℕ) (db : Db)
      → str_eq (stream_of event) "" ≡ false
      → handle_stream_clawback trades disputes clawbacks event now db
        ≡ (kept event now db.2 >>= λ c'. ok ((db.0, db.1, c'), []))
  unfolding handle_stream_clawback
  named_handler event now db named = rw named refl

  clawback_again :
      (event : ParsedEvent) (now now' : ℕ) (db : Db) (result : Db × List Webhook)
      → (str_eq (stream_of event) "" ≡ true) ⊎ (str_eq (stream_of event) "" ≡ false)
      → handle_stream_clawback trades disputes clawbacks event now db ≡ ok result
      → IsNoOp (handle_stream_clawback trades disputes clawbacks event now' result.0) result.0
  unfolding handle_stream_clawback
  clawback_again event now now' db result (inl blank) runs =
      (result.0, [], rw blank refl, refl, λ k. refl)
  clawback_again event now now' db result (inr named) runs =
      let (c', ran, later) =
        >>=-eq-ok (kept event now db.2) _ (sym (named_handler event now db named) ∙ runs) in
      let (row, others) =
        clawbacks.upsert_row (stream_of event, event.event_id) (λ r. r) _ db.2 c'
          (accepted _ c' ran) in
      let (c'', again) =
        clawbacks.upsert_present (stream_of event, event.event_id) (λ r. r)
          (clawback_row event (stream_of event) now') _ c' row in
      subst
        (λ (r : Db × List Webhook).
          IsNoOp (handle_stream_clawback trades disputes clawbacks event now' r.0) r.0)
        (ok_injective later)
        (
          (db.0, db.1, c''),
          [],
          named_handler event now' (db.0, db.1, c') named
              ∙ ap (λ o. ok_or_refused o >>= λ x. ok ((db.0, db.1, x), [])) again,
          refl,
          λ k. refl,
        )

  handlers_again :
      (ty : EventType) (event : ParsedEvent) (id id' now now' : ℕ) (db : Db)
      (result : Db × List Webhook)
      → IsOwn trades disputes clawbacks event db.0
      → handlers trades disputes clawbacks ty event id now db ≡ ok result
      → IsNoOp (handlers trades disputes clawbacks ty event id' now' result.0) result.0
  unfolding handlers handle_trade_created handle_trade_funded handle_delivery_confirmed
      handle_funds_released handle_dispute_initiated handle_dispute_resolved handle_stream_clawback
  handlers_again trade_created event id id' now now' db result own runs =
      alone_again event _ _ (amount_of event) now now' (hooks event created) db result own runs
  handlers_again trade_funded event id id' now now' db result own runs =
      alone_again event "" "" none now now' (hooks event funded) db result own runs
  handlers_again delivery_confirmed event id id' now now' db result own runs =
      alone_again event "" "" none now now' (hooks event delivered) db result own runs
  handlers_again funds_released event id id' now now' db result own runs =
      alone_again event "" "" none now now' (hooks event completed) db result own runs
  handlers_again dispute_initiated event id id' now now' db result own runs =
      synced_again event "" "" none id id' false now now' (hooks event disputed) db result own runs
  handlers_again dispute_resolved event id id' now now' db result own runs =
      synced_again event "" "" none id id' true now now' (hooks event completed) db result own runs
  handlers_again stream_clawback event id id' now now' db result own runs =
      clawback_again event now now' db result (Bool-cases (str_eq (stream_of event) "")) runs

  abbrev IsMove : ParsedEvent → Trade → (now : ℕ) → Outcome EventError (Db × List Webhook) → Type 0
  IsMove event t now result =
      (db' : Db) × (hooks : List Webhook) × (result ≡ ok (db', hooks))
      × (trades.find_unique db'.0 event.trade_id ≡ some (moved event.event_type now t))

  abbrev Applies : ParsedEvent → Trade → (now : ℕ) → Db → Type 0
  Applies event t now db =
      (payload : Trade)
      → (t' : trades.State) × (apply event payload now db.0 ≡ ok t')
        × (trades.find_unique t' event.trade_id ≡ some (moved event.event_type now t))

  alone-moves :
      (event : ParsedEvent) (payload t : Trade) (now : ℕ) (sent : List Webhook) (db : Db)
      → Applies event t now db
      → IsMove event t now (alone event payload now sent db)
  alone-moves event payload t now sent db applies =
      let (t', ran, row) = applies payload in
      ((t', db.1, db.2), sent, ap (λ o. o >>= λ x. ok ((x, db.1, db.2), sent)) ran, row)

  synced-moves :
      (event : ParsedEvent) (payload t : Trade) (id : ℕ) (event_resolved : Bool) (now : ℕ)
      (sent : List Webhook) (db : Db)
      → Applies event t now db
      → IsMove event t now (synced event payload id event_resolved now sent db)
  synced-moves event payload t id event_resolved now sent db applies =
      let (t', ran, row) = applies payload in
      let (d', synchronised) =
        sync_returns trades disputes clawbacks event id event_resolved now db.1 in
      ((t', d', db.2), sent, rw (ran, synchronised) refl, row)

  handlers-moves :
      (ty : EventType) (event : ParsedEvent) (id now : ℕ) (db : Db) (t : Trade)
      → is_expected ty t.status ≡ true
      → Applies event t now db
      → IsMove event t now (handlers trades disputes clawbacks ty event id now db)
  unfolding is_expected handlers handle_trade_created handle_trade_funded handle_delivery_confirmed
      handle_funds_released handle_dispute_initiated handle_dispute_resolved
  handlers-moves trade_created event id now db t expected applies = cc
  handlers-moves trade_funded event id now db t expected applies =
      alone-moves event (payload_row event "" "" none now) t now (hooks event funded) db applies
  handlers-moves delivery_confirmed event id now db t expected applies =
      alone-moves event (payload_row event "" "" none now) t now (hooks event delivered) db applies
  handlers-moves funds_released event id now db t expected applies =
      alone-moves event (payload_row event "" "" none now) t now (hooks event completed) db applies
  handlers-moves dispute_initiated event id now db t expected applies =
      synced-moves event (payload_row event "" "" none now) t id false now (hooks event disputed) db
        applies
  handlers-moves dispute_resolved event id now db t expected applies =
      synced-moves event (payload_row event "" "" none now) t id true now (hooks event completed) db
        applies
  handlers-moves stream_clawback event id now db t expected applies = cc

  -- An event that has been handled and is delivered again right behind, with no other event and no
  -- other writer in between, runs without an error, and changes no trade and no dispute, whatever the
  -- clock says by then and whichever number the database would give to its dispute. (The trade's row
  -- carries the number that it is found by.)
  pub dispatch_again :
      (event : ParsedEvent) (id id' now now' : ℕ) (db : Db) (result : Db × List Webhook)
      → IsOwn trades disputes clawbacks event db.0
      → dispatch_event trades disputes clawbacks event id now db ≡ ok result
      → IsNoOp (dispatch_event trades disputes clawbacks event id' now' result.0) result.0
  unfolding dispatch_event
  dispatch_again event id id' now now' db result own runs =
      handlers_again event.event_type event id id' now now' db result own runs

  -- A trade behind a move: the new status, the next version, the time, and the rest as it was.
  abbrev pub IsMovedTo : TradeStatus → (now : ℕ) → Trade → Option Trade → Type 0
  IsMovedTo to now t found =
      (row : Trade) × (found ≡ some row)
      × (row.status ≡ to)
      × (row.version ≡ t.version + 1)
      × (row.updated_at ≡ now)
      × (row.trade_id ≡ t.trade_id)
      × (row.buyer_address ≡ t.buyer_address)
      × (row.seller_address ≡ t.seller_address)
      × (row.amount_usdc ≡ t.amount_usdc)

  moved-IsMovedTo :
      (ty : EventType) (to : TradeStatus) (now : ℕ) (t : Trade)
      → event_to_status ty ≡ some to
      → IsMovedTo to now t (some (moved ty now t))
  unfolding moved
  moved-IsMovedTo ty to now t takes =
      (moved ty now t, refl, rw takes refl, refl, refl, refl, refl, refl, refl)

  -- An event that takes a trade along the next edge of its life, with no other writer in between, is
  -- handled without an error: the trade behind it has the status at the end of the edge, the next
  -- version and the time of the event, and is else as it was. (The trade's row carries the number that
  -- it is found by.)
  pub dispatch-moves :
      (event : ParsedEvent) (id now : ℕ) (db : Db) (t : Trade) (to : TradeStatus)
      → trades.find_unique db.0 event.trade_id ≡ some t
      → t.trade_id ≡ event.trade_id
      → Edge event.event_type t.status to
      → (db' : Db) × (hooks : List Webhook) × (dispatch_event trades disputes clawbacks event id now
            db
          ≡ ok (db', hooks))
        × IsMovedTo to now t (trades.find_unique db'.0 event.trade_id)
  unfolding dispatch_event
  dispatch-moves event id now db t to found own edge =
      let (expected, takes) = Edge-expected edge in
      let (db', hooks, runs, row) =
        handlers-moves event.event_type event id now db t expected (λ payload.
          apply-moves trades disputes clawbacks event payload t now db.0 found own expected) in
      (
        db',
        hooks,
        runs,
        subst (IsMovedTo to now t) (sym row) (moved-IsMovedTo event.event_type to now t takes),
      )
