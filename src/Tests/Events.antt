-- ===== src/Tests/Events.antt =====
-- Trades and their events in tables of concrete rows.
use text.Mathlib.Text.{◌==◌ as str_eq}
use text.Mathlib.TextEquality.{eq_iff}
use elite_work.Base.{
  ◌≡◌, ◌↔◌, refl, sym, ap, ◌∙◌, String, Bool, true, ◌&&◌, Option, none, some, List, [], ◌∷◌, arith,
}
use elite_work.Base.Outcome.{ok}
use elite_work.Base.Table.{Table}
use elite_work.Base.Table.Keyed.{keyed, keyed_by_text, lookup, matching}
use elite_work.Disputes.{Dispute}
use elite_work.Trades.{
  Trade, TradeStatus, funded, delivered, pending_signature, ParsedEvent, EventData,
  delivery_confirmed, StreamClawbackEvent, Database, dispatch_event, apply_status_transition,
  move_or_create, move_existing, handlers, handle_delivery_confirmed, is_expected,
  same_trade_status, moved, is_current, hooks, Webhook,
}
use elite_work.Trades.Events.{here, next, Reach-Life, Life}
use elite_work.Trades.Replay.{Reach-settled}
use elite_work.Trades.Dispatch.{dispatch_again, dispatch-moves, IsNoOp, IsMovedTo}
use elite_work.Trades.Flow.{Edge}

abbrev same_pair : String × String → String × String → Bool
same_pair (a, b) (c, d) = str_eq a c && str_eq b d

same_pair_iff : (x y : String × String) → (same_pair x y ≡ true) ↔ (x ≡ y)
same_pair_iff (a, b) (c, d) = ground (arith, eq_iff a c, eq_iff b d)

abbrev trades : Table String Trade
trades = keyed_by_text Trade

abbrev disputes : Table String Dispute
disputes = keyed_by_text Dispute

abbrev clawbacks : Table (String × String) StreamClawbackEvent
clawbacks = keyed (String × String) same_pair same_pair_iff StreamClawbackEvent

abbrev no_fields : EventData
no_fields = record {
  buyer = none;
  seller = none;
  amount_usdc = none;
  amount = none;
  initiator = none;
  reason = none;
  stream_id = none;
  stream_id_camel = none;
  admin = none;
}

abbrev delivery : ParsedEvent
delivery = record {
  event_type = delivery_confirmed;
  trade_id = "t-1";
  event_id = "e-9";
  fields = no_fields;
}

abbrev trade_at : TradeStatus → Trade
trade_at status = record {
  trade_id = "t-1";
  buyer_address = "GBUYER";
  seller_address = "GSELLER";
  amount_usdc = "25.00";
  status = status;
  version = 2;
  updated_at = 100;
}

only_row : lookup String str_eq eq_iff Trade [] "t-1" ≡ none
unfolding lookup
only_row = refl

abbrev database : TradeStatus → Database trades disputes clawbacks
database status = ((("t-1", trade_at status) ∷ [], (only_row, tt)), ([], tt), ([], tt))

found :
    (status : TradeStatus) → trades.find_unique (database status).0 "t-1" ≡ some (trade_at status)
unfolding lookup
found status = refl

dispatch-moves_example :
    (db' : Database trades disputes clawbacks) × (sent : List Webhook) × (dispatch_event trades
        disputes clawbacks delivery 0 107
        (database funded)
      ≡ ok (db', sent))
    × IsMovedTo trades disputes clawbacks delivered 107
        (trade_at funded)
        (trades.find_unique db'.0 "t-1")
dispatch-moves_example =
    dispatch-moves trades disputes clawbacks delivery 0 107 (database funded) (trade_at funded)
      delivered (found funded) refl Edge.delivers

-- The database behind the delivery.
abbrev behind : TradeStatus → Database trades disputes clawbacks
behind status = (
  (trades.update_many (is_current delivery (trade_at status)) (moved delivery_confirmed 107)
      (database status).0).0,
  ([], tt),
  ([], tt),
)

delivers :
    dispatch_event trades disputes clawbacks delivery 0 107 (database funded)
    ≡ ok (behind funded, hooks delivery delivered)
unfolding dispatch_event handlers handle_delivery_confirmed apply_status_transition move_or_create
    move_existing is_expected same_trade_status is_current moved lookup matching
delivers = refl

Reach-Life_example :
    (t' : Trade) × (trades.find_unique (behind funded).0 "t-1" ≡ some t')
    × Life (trade_at funded) t'
Reach-Life_example =
    Reach-Life trades disputes clawbacks "t-1" (trade_at funded)
      (next delivery 0 107 (hooks delivery delivered) here delivers) (found funded)

dispatch_again_example :
    IsNoOp trades disputes clawbacks
      (dispatch_event trades disputes clawbacks delivery 3 150 (behind funded))
      (behind funded)
dispatch_again_example =
    dispatch_again trades disputes clawbacks delivery 0 3 107 150 (database funded)
      (behind funded, hooks delivery delivered) (λ t h. own t (sym (found funded) ∙ h)) delivers
  where
    id_of : Option Trade → String
    id_of none = ""
    id_of (some t) = t.trade_id

    own : (t : Trade) → some (trade_at funded) ≡ some t → t.trade_id ≡ "t-1"
    own t h = ap (λ o. id_of o) (sym h)

ignores :
    dispatch_event trades disputes clawbacks delivery 0 107 (database pending_signature)
    ≡ ok (database pending_signature, hooks delivery delivered)
unfolding dispatch_event handlers handle_delivery_confirmed apply_status_transition move_or_create
    move_existing is_expected same_trade_status lookup
ignores = refl

Reach-settled_example :
    trades.find_unique (database pending_signature).0 "t-1" ≡ some (trade_at pending_signature)
Reach-settled_example =
    Reach-settled trades disputes clawbacks "t-1" (trade_at pending_signature)
      (next delivery 0 107 (hooks delivery delivered) here ignores) (found pending_signature) refl
