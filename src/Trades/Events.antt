-- ===== src/Trades/Events.antt =====
-- `applyStatusTransition` and `dispatchEvent`, seen from the row of a trade.
use text.Mathlib.TextEquality.{eq_iff}
use elite_work.Base.{
  ℕ, ◌+◌, ◌≡◌, ◌≢◌, ◌⊎◌, inl, inr, refl, sym, ap, ◌∙◌, subst, String, Bool, true, false, Option,
  none, some, List, [], arith,
}
use elite_work.Base.Tests.{if◌then◌else◌, Bool-cases, get_or_else}
use elite_work.Base.Outcome.{Outcome, ok, throw, ◌>>=◌, >>=-eq-ok}
use elite_work.Base.Table.{Table, changed}
use elite_work.Disputes.{Dispute}
use elite_work.Trades.{
  Trade, ParsedEvent, EventType, EventError, Webhook, StreamClawbackEvent, is_expected, moved,
  is_current, move_existing, move_or_create, apply_status_transition, ok_or_refused, dispatch_event,
  Database, trade_created, trade_funded, delivery_confirmed, funds_released, dispute_initiated,
  dispute_resolved, stream_clawback, handle_trade_created, handle_trade_funded,
  handle_delivery_confirmed, handle_funds_released, handle_dispute_initiated,
  handle_dispute_resolved, handle_stream_clawback, handlers, Handled,
}
use elite_work.Trades.Flow.{Flow, same_trade_status_refl, same_trade_status_eq, is_expected-Flow}

-- What an event may make of a trade.
abbrev pub IsMoved : ParsedEvent → (now : ℕ) → Trade → Trade → Type 0
IsMoved event now t t' =
    (t' ≡ t)
    ⊎ ((t' ≡ moved event.event_type now t)
        × (is_expected event.event_type t.status ≡ true)
        × (t.trade_id ≡ event.trade_id))

some≢none : {r : Trade} → some r ≢ none
some≢none h = cc

changed-some :
    (p : Trade → Bool) (f : Trade → Trade) (t : Trade)
    → changed p f (some t) ≡ some (if p t then f t else t)
changed-some p f t = ground arith

pub accepted :
    {A : Type 0} (o : Option A) (a : A)
    → Path (Outcome EventError A) (ok_or_refused o) (ok a)
    → o ≡ some a
accepted none a h = cc
accepted (some b) a h = cc

current-parts :
    (event : ParsedEvent) (read t : Trade)
    → is_current event read t ≡ true
    → (t.trade_id ≡ event.trade_id) × (t.status ≡ read.status)
unfolding is_current
current-parts event read t h =
    ground (arith, h, eq_iff t.trade_id event.trade_id, same_trade_status_eq t.status read.status)

pub current_refl :
    (event : ParsedEvent) (read : Trade)
    → read.trade_id ≡ event.trade_id
    → is_current event read read ≡ true
unfolding is_current
current_refl event read same =
    ground (arith, same, eq_iff read.trade_id event.trade_id, same_trade_status_refl read.status)

IsMoved-Flow :
    (event : ParsedEvent) (now : ℕ) (t t' : Trade)
    → IsMoved event now t t'
    → (t' ≡ t)
      ⊎ (Flow t.status t'.status × (t'.version ≡ t.version + 1) × (t.trade_id ≡ event.trade_id))
unfolding moved
IsMoved-Flow event now t t' (inl same) = inl same
IsMoved-Flow event now t t' (inr (change, expected, own)) =
    let (to, becomes, flow) = is_expected-Flow event.event_type t.status expected in
    let status : t'.status ≡ to =
      ap (λ x. x.status) change ∙ ap (λ o. get_or_else o t.status) becomes in
    inr (subst (Flow t.status) (sym status) flow, ap (λ x. x.version) change, own)

current-IsMoved :
    (event : ParsedEvent) (now : ℕ) (read t : Trade)
    → is_expected event.event_type read.status ≡ true
    → IsMoved event now t (if is_current event read t then moved event.event_type now t else t)
current-IsMoved event now read t expected = elim (Bool-cases (is_current event read t)) [
  | inl hit ↦
      let (same, status) = current-parts event read t hit in
      rw hit (inr (refl, ap (is_expected event.event_type) status ∙ expected, same))
  | inr miss ↦ rw miss (inl refl)
]

-- The stations of a trade, each one version behind the next.
pub data Life (t : Trade) : Trade → Type 0 where
  born : {t' : Trade} → t' ≡ t → Life t t'
  grown :
      {t₁ t₂ : Trade}
      → Life t t₁
      → Flow t₁.status t₂.status
      → t₂.version ≡ t₁.version + 1
      → Life t t₂

Life-then :
    {t t₁ t₂ : Trade} {A : Type 0}
    → Life t t₁
    → (t₂ ≡ t₁) ⊎ (Flow t₁.status t₂.status × (t₂.version ≡ t₁.version + 1) × A)
    → Life t t₂
Life-then {t} life (inl same) = subst (Life t) (sym same) life
Life-then life (inr (flow, version, own)) = grown life flow version

module _ (trades : Table String Trade) (disputes : Table String Dispute)
    (clawbacks : Table (String × String) StreamClawbackEvent) where
  abbrev pub Kept : ParsedEvent → (now : ℕ) → trades.State → trades.State → Type 0
  Kept event now s s' =
      (k : String) (t : Trade)
      → trades.find_unique s k ≡ some t
      → (t' : Trade) × (trades.find_unique s' k ≡ some t') × IsMoved event now t t'

  existing-written :
      (event : ParsedEvent) (read : Trade) (now : ℕ) (s s' : trades.State)
      → move_existing trades disputes clawbacks event read now s ≡ ok s'
      → is_expected event.event_type read.status ≡ true
      → (trades.update_many (is_current event read) (moved event.event_type now) s).0 ≡ s'
  unfolding move_existing
  existing-written event read now s s' runs expected = ground (arith, runs, expected)

  existing-ignored :
      (event : ParsedEvent) (read : Trade) (now : ℕ) (s s' : trades.State)
      → move_existing trades disputes clawbacks event read now s ≡ ok s'
      → is_expected event.event_type read.status ≡ false
      → s ≡ s'
  unfolding move_existing
  existing-ignored event read now s s' runs other = ground (arith, runs, other)

  written-Kept :
      (event : ParsedEvent) (read : Trade) (now : ℕ) (s : trades.State)
      → is_expected event.event_type read.status ≡ true
      → Kept event now s
          (trades.update_many (is_current event read) (moved event.event_type now) s).0
  written-Kept event read now s expected k t found = (
    _,
    trades.find-update_many (is_current event read) (moved event.event_type now) s k
        ∙ ap (changed (is_current event read) (moved event.event_type now)) found
        ∙ changed-some (is_current event read) (moved event.event_type now) t,
    current-IsMoved event now read t expected,
  )

  same-Kept : (event : ParsedEvent) (now : ℕ) (s : trades.State) → Kept event now s s
  same-Kept event now s k t found = (t, found, inl refl)

  existing-Kept :
      (event : ParsedEvent) (read : Trade) (now : ℕ) (s s' : trades.State)
      → move_existing trades disputes clawbacks event read now s ≡ ok s'
      → Kept event now s s'
  existing-Kept event read now s s' runs =
      elim (Bool-cases (is_expected event.event_type read.status)) [
        | inl expected ↦
            subst (Kept event now s) (existing-written event read now s s' runs expected)
              (written-Kept event read now s expected)
        | inr other ↦
            subst (Kept event now s) (existing-ignored event read now s s' runs other)
              (same-Kept event now s)
      ]

  created-Kept :
      (event : ParsedEvent) (payload : Trade) (now : ℕ) (s s' : trades.State)
      → trades.find_unique s event.trade_id ≡ none
      → trades.upsert event.trade_id (moved event.event_type now) payload s ≡ some s'
      → Kept event now s s'
  created-Kept event payload now s s' absent runs k t found =
      let (row, others) = trades.upsert_row event.trade_id _ payload s s' runs in
      (
        t,
        others k (λ same. some≢none (sym found ∙ ap (trades.find_unique s) same ∙ absent)) ∙ found,
        inl refl,
      )

  or_create-Kept :
      (event : ParsedEvent) (payload : Trade) (o : Option Trade) (now : ℕ) (s s' : trades.State)
      → trades.find_unique s event.trade_id ≡ o
      → move_or_create trades disputes clawbacks event payload o now s ≡ ok s'
      → Kept event now s s'
  unfolding move_or_create
  or_create-Kept event payload none now s s' absent runs =
      created-Kept event payload now s s' absent (accepted _ s' runs)
  or_create-Kept event payload (some read) now s s' present runs =
      existing-Kept event read now s s' runs

  apply-Kept :
      (event : ParsedEvent) (payload : Trade) (now : ℕ) (s s' : trades.State)
      → apply_status_transition trades disputes clawbacks event payload now s ≡ ok s'
      → Kept event now s s'
  unfolding apply_status_transition
  apply-Kept event payload now s s' runs =
      or_create-Kept event payload (trades.find_unique s event.trade_id) now s s' refl runs

  synced :
      (t' : trades.State) (c : clawbacks.State) {db : Database trades disputes clawbacks}
      {hooks : List Webhook} (o : Outcome EventError disputes.State) (sent : List Webhook)
      → Path
          (Handled trades disputes clawbacks)
          (o >>= λ d'. ok ((t', d', c), sent))
          (ok (db, hooks))
      → t' ≡ db.0
  synced t' c (ok d') sent runs = cc
  synced t' c (throw e) sent runs = cc

  clawed_back :
      (t : trades.State) (d : disputes.State) (c : clawbacks.State)
      {db : Database trades disputes clawbacks} {hooks : List Webhook} (blank : Bool)
      (o : Outcome EventError clawbacks.State)
      → Path
          (Handled trades disputes clawbacks)
          (if blank then ok ((t, d, c), []) else (o >>= λ c'. ok ((t, d, c'), [])))
          (ok (db, hooks))
      → t ≡ db.0
  clawed_back t d c true o runs = cc
  clawed_back t d c false (ok c') runs = cc
  clawed_back t d c false (throw e) runs = cc

  -- The transition of a handler, out of a handler that returns.
  handled-Kept :
      (event : ParsedEvent) (payload : Trade) (now : ℕ) (s : trades.State)
      (rest : trades.State → Handled trades disputes clawbacks)
      (db : Database trades disputes clawbacks) (hooks : List Webhook)
      → ((t' : trades.State) → rest t' ≡ ok (db, hooks) → t' ≡ db.0)
      → (apply_status_transition trades disputes clawbacks event payload now s >>= rest)
        ≡ ok (db, hooks)
      → Kept event now s db.0
  handled-Kept event payload now s rest db hooks reads runs =
      let (t', ran, later) =
        >>=-eq-ok (apply_status_transition trades disputes clawbacks event payload now s) rest
          runs in
      subst (Kept event now s) (reads t' later) (apply-Kept event payload now s t' ran)

  handlers-Kept :
      (ty : EventType) (event : ParsedEvent) (id now : ℕ)
      (db db' : Database trades disputes clawbacks) (hooks : List Webhook)
      → handlers trades disputes clawbacks ty event id now db ≡ ok (db', hooks)
      → Kept event now db.0 db'.0
  unfolding handlers handle_trade_created handle_trade_funded handle_delivery_confirmed
      handle_funds_released handle_dispute_initiated handle_dispute_resolved handle_stream_clawback
  handlers-Kept trade_created event id now db db' hooks runs =
      handled-Kept event _ now db.0 _ db' hooks (λ t' later. cc) runs
  handlers-Kept trade_funded event id now db db' hooks runs =
      handled-Kept event _ now db.0 _ db' hooks (λ t' later. cc) runs
  handlers-Kept delivery_confirmed event id now db db' hooks runs =
      handled-Kept event _ now db.0 _ db' hooks (λ t' later. cc) runs
  handlers-Kept funds_released event id now db db' hooks runs =
      handled-Kept event _ now db.0 _ db' hooks (λ t' later. cc) runs
  handlers-Kept dispute_initiated event id now db db' hooks runs =
      handled-Kept event _ now db.0 _ db' hooks (λ t' later. synced t' db.2 _ _ later) runs
  handlers-Kept dispute_resolved event id now db db' hooks runs =
      handled-Kept event _ now db.0 _ db' hooks (λ t' later. synced t' db.2 _ _ later) runs
  handlers-Kept stream_clawback event id now db db' hooks runs =
      subst (Kept event now db.0) (clawed_back db.0 db.1 db.2 _ _ runs) (same-Kept event now db.0)

  -- An event that is handled leaves each trade as it was, or moves the trade of the event along the
  -- life of a trade and counts its version up by one.
  dispatch-Flow :
      (event : ParsedEvent) (id now : ℕ) (db db' : Database trades disputes clawbacks)
      (hooks : List Webhook) (k : String) (t : Trade)
      → dispatch_event trades disputes clawbacks event id now db ≡ ok (db', hooks)
      → trades.find_unique db.0 k ≡ some t
      → (t' : Trade) × (trades.find_unique db'.0 k ≡ some t')
        × ((t' ≡ t)
            ⊎ (Flow t.status t'.status
                × (t'.version ≡ t.version + 1)
                × (t.trade_id ≡ event.trade_id)))
  unfolding dispatch_event
  dispatch-Flow event id now db db' hooks k t runs found =
      let (t', row, how) =
        handlers-Kept event.event_type event id now db db' hooks runs k t found in
      (t', row, IsMoved-Flow event now t t' how)

  -- A history of handled events.
  pub data Reach (db : Database trades disputes clawbacks)
      : Database trades disputes clawbacks → Type 0 where
    here : Reach db db
    next :
        {db₁ db₂ : Database trades disputes clawbacks} (event : ParsedEvent) (id now : ℕ)
        (hooks : List Webhook)
        → Reach db db₁
        → dispatch_event trades disputes clawbacks event id now db₁ ≡ ok (db₂, hooks)
        → Reach db db₂

  -- Through any history of handled events a trade stays in the table, its status goes along the life
  -- of a trade, and its version never goes down.
  pub Reach-Life :
      {db db' : Database trades disputes clawbacks} (k : String) (t : Trade)
      → Reach db db'
      → trades.find_unique db.0 k ≡ some t
      → (t' : Trade) × (trades.find_unique db'.0 k ≡ some t') × Life t t'
  Reach-Life k t here found = (t, found, born refl)
  Reach-Life {db} k t (next {db₁} {db₂} event id now hooks reach runs) found =
      let (t₁, found₁, life) = Reach-Life k t reach found in
      let (t₂, found₂, how) = dispatch-Flow event id now db₁ db₂ hooks k t₁ runs found₁ in
      (t₂, found₂, Life-then life how)
