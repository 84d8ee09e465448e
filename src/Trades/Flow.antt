-- ===== src/Trades/Flow.antt =====
-- The statuses of a trade, and how the events follow each other.
use elite_work.Base.{◌≡◌, refl, true, some, arith}
use elite_work.Trades.{
  TradeStatus, created, funded, delivered, completed, disputed, EventType, trade_funded,
  delivery_confirmed, funds_released, dispute_initiated, dispute_resolved, same_trade_status,
  is_expected, event_to_status,
}

-- The life of a trade on the chain.
pub data Flow : TradeStatus → TradeStatus → Type 0 where
  funding : Flow created funded
  delivery : Flow funded delivered
  release : Flow delivered completed
  early_dispute : Flow funded disputed
  late_dispute : Flow delivered disputed
  resolution : Flow disputed completed

pub same_trade_status_refl : (a : TradeStatus) → same_trade_status a a ≡ true
unfolding same_trade_status
same_trade_status_refl a = ground arith

pub same_trade_status_eq : (a b : TradeStatus) → same_trade_status a b ≡ true → a ≡ b
unfolding same_trade_status
same_trade_status_eq a b h = ground arith

pub is_expected-Flow :
    (ty : EventType) (from : TradeStatus)
    → is_expected ty from ≡ true
    → (to : TradeStatus) × (event_to_status ty ≡ some to) × Flow from to
unfolding is_expected same_trade_status
is_expected-Flow trade_funded created h = (funded, refl, funding)
is_expected-Flow delivery_confirmed funded h = (delivered, refl, delivery)
is_expected-Flow funds_released delivered h = (completed, refl, release)
is_expected-Flow dispute_initiated funded h = (disputed, refl, early_dispute)
is_expected-Flow dispute_initiated delivered h = (disputed, refl, late_dispute)
is_expected-Flow dispute_resolved disputed h = (completed, refl, resolution)
is_expected-Flow _ _ h = cc

Flow-event :
    {from to : TradeStatus}
    → Flow from to
    → (ty : EventType) × (is_expected ty from ≡ true) × (event_to_status ty ≡ some to)
unfolding is_expected same_trade_status
Flow-event funding = (trade_funded, refl, refl)
Flow-event delivery = (delivery_confirmed, refl, refl)
Flow-event release = (funds_released, refl, refl)
Flow-event early_dispute = (dispute_initiated, refl, refl)
Flow-event late_dispute = (dispute_initiated, refl, refl)
Flow-event resolution = (dispute_resolved, refl, refl)

-- Which event takes a trade along which edge of its life.
pub data Edge : EventType → TradeStatus → TradeStatus → Type 0 where
  funds : Edge trade_funded created funded
  delivers : Edge delivery_confirmed funded delivered
  releases : Edge funds_released delivered completed
  disputes_early : Edge dispute_initiated funded disputed
  disputes_late : Edge dispute_initiated delivered disputed
  resolves : Edge dispute_resolved disputed completed

pub Edge-expected :
    {ty : EventType} {from to : TradeStatus}
    → Edge ty from to
    → (is_expected ty from ≡ true) × (event_to_status ty ≡ some to)
unfolding is_expected same_trade_status
Edge-expected funds = (refl, refl)
Edge-expected delivers = (refl, refl)
Edge-expected releases = (refl, refl)
Edge-expected disputes_early = (refl, refl)
Edge-expected disputes_late = (refl, refl)
Edge-expected resolves = (refl, refl)
