-- ===== src/Trades/Replay.antt =====
-- An event that is handled again, an event that comes in its turn, and the trades that no event moves.
use elite_work.Base.{
  ℕ, ◌≡◌, inl, inr, refl, sym, ap, ◌∙◌, subst, String, Bool, true, false, Option, none, some, arith,
}
use elite_work.Base.Tests.{Bool-cases, Option-cases, get_or_else}
use elite_work.Base.Outcome.{Outcome, ok}
use elite_work.Base.Table.{Table, upserted}
use elite_work.Disputes.{Dispute}
use elite_work.Trades.{
  TradeStatus, pending_signature, created, funded, delivered, completed, disputed, cancelled,
  expired, Trade, ParsedEvent, EventType, EventError, StreamClawbackEvent, same_trade_status,
  is_expected, moved, is_current, move_existing, move_or_create, apply_status_transition, Database,
  event_to_status, payload_row, trade_created, trade_funded, delivery_confirmed, funds_released,
  dispute_initiated, dispute_resolved, stream_clawback, ok_or_refused,
}
use elite_work.Trades.Flow.{
  Flow, funding, delivery, release, early_dispute, late_dispute, resolution,
}
use elite_work.Trades.Events.{current_refl, Reach, Reach-Life, Life, born, grown, accepted}

-- The statuses that no event leads out of.
abbrev pub is_settled : TradeStatus → Bool
is_settled pending_signature = true
is_settled created = false
is_settled funded = false
is_settled delivered = false
is_settled completed = true
is_settled disputed = false
is_settled cancelled = true
is_settled expired = true

settled-stuck : {from to : TradeStatus} → is_settled from ≡ true → Flow from to → ⊥
settled-stuck h funding = cc
settled-stuck h delivery = cc
settled-stuck h release = cc
settled-stuck h early_dispute = cc
settled-stuck h late_dispute = cc
settled-stuck h resolution = cc

settled-Life : {t t' : Trade} → is_settled t.status ≡ true → Life t t' → t' ≡ t
settled-Life h (born same) = same
settled-Life {t} h (grown {t₁} {t₂} life flow version) =
    let same = settled-Life h life in
    absurd (settled-stuck (ap (λ x. is_settled x.status) same ∙ h) flow)

-- No event expects the status that it leads to.
moved-unexpected :
    (ty : EventType) (now : ℕ) (t : Trade)
    → is_expected ty t.status ≡ true
    → is_expected ty (moved ty now t).status ≡ false
unfolding moved is_expected same_trade_status
moved-unexpected trade_created now t h = cc
moved-unexpected trade_funded now t h = refl
moved-unexpected delivery_confirmed now t h = refl
moved-unexpected funds_released now t h = refl
moved-unexpected dispute_initiated now t h = refl
moved-unexpected dispute_resolved now t h = refl
moved-unexpected stream_clawback now t h = cc

payload-unexpected :
    (ty : EventType) → is_expected ty (get_or_else (event_to_status ty) created) ≡ false
unfolding is_expected same_trade_status
payload-unexpected trade_created = refl
payload-unexpected trade_funded = refl
payload-unexpected delivery_confirmed = refl
payload-unexpected funds_released = refl
payload-unexpected dispute_initiated = refl
payload-unexpected dispute_resolved = refl
payload-unexpected stream_clawback = refl

pub ok_injective : {A : Type 0} {a b : A} → Path (Outcome EventError A) (ok a) (ok b) → a ≡ b
ok_injective h = cc

module _ (trades : Table String Trade) (disputes : Table String Dispute)
    (clawbacks : Table (String × String) StreamClawbackEvent) where
  -- Through any history of handled events, a trade that awaits its signature, or that is completed,
  -- cancelled or expired, stays as it is.
  pub Reach-settled :
      {db db' : Database trades disputes clawbacks} (k : String) (t : Trade)
      → Reach trades disputes clawbacks db db'
      → trades.find_unique db.0 k ≡ some t
      → is_settled t.status ≡ true
      → trades.find_unique db'.0 k ≡ some t
  Reach-settled k t reach found settled =
      let (t', row, life) = Reach-Life trades disputes clawbacks k t reach found in
      row ∙ ap some (settled-Life settled life)

  apply-ignored :
      (event : ParsedEvent) (payload t : Trade) (now : ℕ) (s : trades.State)
      → trades.find_unique s event.trade_id ≡ some t
      → is_expected event.event_type t.status ≡ false
      → apply_status_transition trades disputes clawbacks event payload now s ≡ ok s
  unfolding apply_status_transition move_or_create move_existing
  apply-ignored event payload t now s found other = rw (found, other) refl

  -- With no other writer in between, an event that the status of its trade expects moves the trade.
  pub apply-moves :
      (event : ParsedEvent) (payload t : Trade) (now : ℕ) (s : trades.State)
      → trades.find_unique s event.trade_id ≡ some t
      → t.trade_id ≡ event.trade_id
      → is_expected event.event_type t.status ≡ true
      → (s' : trades.State) × (apply_status_transition trades disputes clawbacks event payload now s
          ≡ ok s')
        × (trades.find_unique s' event.trade_id ≡ some (moved event.event_type now t))
  unfolding apply_status_transition move_or_create move_existing
  apply-moves event payload t now s found own expected =
      let p = is_current event t in
      let f = moved event.event_type now in
      let hit : p t ≡ true = current_refl event t own in
      let written = trades.count_some p f s event.trade_id t found hit in
      (
        (trades.update_many p f s).0,
        rw (found, expected) (ground (arith, written)),
        trades.find-update_many p f s event.trade_id ∙ rw (found, hit) refl,
      )

  -- The `tradeId` of a row is the key that it is found by.
  abbrev pub IsOwn : ParsedEvent → trades.State → Type 0
  IsOwn event s =
      (t : Trade) → trades.find_unique s event.trade_id ≡ some t → t.trade_id ≡ event.trade_id

  apply-new :
      (event : ParsedEvent) (payload : Trade) (now : ℕ) (s : trades.State)
      → trades.find_unique s event.trade_id ≡ none
      → apply_status_transition trades disputes clawbacks event payload now s
        ≡ ok_or_refused (trades.upsert event.trade_id (moved event.event_type now) payload s)
  unfolding apply_status_transition move_or_create
  apply-new event payload now s absent = rw absent refl

  -- Behind a transition the trade of the event is there, and the event does not expect its status.
  abbrev Unexpected : ParsedEvent → trades.State → Type 0
  Unexpected event s =
      (t : Trade) × (trades.find_unique s event.trade_id ≡ some t)
      × (is_expected event.event_type t.status ≡ false)

  apply-Unexpected :
      (event : ParsedEvent) (buyer seller : String) (amount : Option String) (now : ℕ)
      (s s' : trades.State)
      → IsOwn event s
      → apply_status_transition trades disputes clawbacks event
          (payload_row event buyer seller amount now)
          now
          s
        ≡ ok s'
      → Unexpected event s'
  apply-Unexpected event buyer seller amount now s s' own runs =
      let payload = payload_row event buyer seller amount now in
      elim (Option-cases (trades.find_unique s event.trade_id)) [
        | inl absent ↦
            let created_row = accepted _ s' (sym (apply-new event payload now s absent) ∙ runs) in
            let (row, others) = trades.upsert_row event.trade_id _ payload s s' created_row in
            (
              payload,
              row ∙ ap (λ o. some (upserted (moved event.event_type now) payload o)) absent,
              payload-unexpected event.event_type,
            )
        | inr (t, found) ↦ elim (Bool-cases (is_expected event.event_type t.status)) [
          | inl expected ↦
              let (s₁, ran, row) = apply-moves event payload t now s found (own t found) expected in
              subst (Unexpected event) (ok_injective (sym ran ∙ runs))
                (_, row, moved-unexpected event.event_type now t expected)
          | inr other ↦
              subst (Unexpected event)
                (ok_injective (sym (apply-ignored event payload t now s found other) ∙ runs))
                (t, found, other)
        ]
      ]

  -- A second transition by the same event changes nothing.
  pub apply_again :
      (event : ParsedEvent) (buyer seller : String) (amount : Option String) (now now' : ℕ)
      (payload : Trade) (s s' : trades.State)
      → IsOwn event s
      → apply_status_transition trades disputes clawbacks event
          (payload_row event buyer seller amount now)
          now
          s
        ≡ ok s'
      → apply_status_transition trades disputes clawbacks event payload now' s' ≡ ok s'
  apply_again event buyer seller amount now now' payload s s' own runs =
      let (t, found, other) = apply-Unexpected event buyer seller amount now s s' own runs in
      apply-ignored event payload t now' s' found other
