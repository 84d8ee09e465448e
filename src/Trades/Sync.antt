-- ===== src/Trades/Sync.antt =====
-- `syncDisputeFromEvent`, once and again.
use elite_work.Base.{
  ℕ, ◌≡◌, inl, inr, refl, sym, ap, ◌∙◌, String, Bool, true, false, Option, none, some, arith,
}
use elite_work.Base.Tests.{Bool-cases, Option-cases}
use elite_work.Base.Outcome.{Outcome, ok}
use elite_work.Base.Table.{Table, changed}
use elite_work.Disputes.{Dispute, same_status, chain_resolved}
use elite_work.Trades.{
  Trade, ParsedEvent, EventError, StreamClawbackEvent, disputed_row, is_open_of, sync_dispute,
  sync_dispute_from_event, ok_or_refused,
}
use elite_work.Trades.Events.{accepted}
use elite_work.Trades.Replay.{ok_injective}

-- A dispute that a resolution has passed is not open any more.
resolved_once :
    (event : ParsedEvent) (now now' : ℕ) (o : Option Dispute)
    → changed
        (is_open_of event)
        (chain_resolved now')
        (changed (is_open_of event) (chain_resolved now) o)
      ≡ changed (is_open_of event) (chain_resolved now) o
unfolding is_open_of same_status
resolved_once event now now' none = refl
resolved_once event now now' (some d) = ground arith

some_injective : {A : Type 0} {a b : A} → some a ≡ some b → a ≡ b
some_injective h = cc

still_there :
    (p : Dispute → Bool) (f : Dispute → Dispute) (d : Dispute)
    → (d' : Dispute) × (changed p f (some d) ≡ some d')
still_there p f d = elim (Bool-cases (p d)) [
  | inl hit ↦ (f d, rw hit refl)
  | inr miss ↦ (d, rw miss refl)
]

module _ (trades : Table String Trade) (disputes : Table String Dispute)
    (clawbacks : Table (String × String) StreamClawbackEvent) where
  abbrev pub sync : ParsedEvent → ℕ → Bool → ℕ → disputes.State → Outcome EventError disputes.State
  sync = sync_dispute_from_event trades disputes clawbacks

  sync-present :
      (event : ParsedEvent) (id : ℕ) (now : ℕ) (d : disputes.State) (r : Dispute)
      → disputes.find_unique d event.trade_id ≡ some r
      → (sync event id false now d ≡ ok d)
        × (sync event id true now d
            ≡ ok (disputes.update_many (is_open_of event) (chain_resolved now) d).0)
  unfolding sync_dispute_from_event sync_dispute
  sync-present event id now d r found = (rw found refl, rw found refl)

  sync-absent :
      (event : ParsedEvent) (id : ℕ) (now : ℕ) (d : disputes.State)
      → disputes.find_unique d event.trade_id ≡ none
      → (sync event id false now d
          ≡ ok_or_refused (disputes.create event.trade_id (disputed_row id event) d))
        × (sync event id true now d ≡ ok d)
  unfolding sync_dispute_from_event sync_dispute
  sync-absent event id now d absent = (rw absent refl, rw absent refl)

  -- The synchronisation of a dispute never throws.
  pub sync_returns :
      (event : ParsedEvent) (id : ℕ) (event_resolved : Bool) (now : ℕ) (d : disputes.State)
      → (d' : disputes.State) × (sync event id event_resolved now d ≡ ok d')
  sync_returns event id event_resolved now d =
      elim (Option-cases (disputes.find_unique d event.trade_id)) [
        | inl absent ↦ absent_case event_resolved absent
        | inr (r, found) ↦ found_case event_resolved r found
      ]
    where
      absent_case :
          (b : Bool)
          → disputes.find_unique d event.trade_id ≡ none
          → (d' : disputes.State) × (sync event id b now d ≡ ok d')
      absent_case true absent = (d, (sync-absent event id now d absent).1)
      absent_case false absent =
          let (d', made, row, others) =
            disputes.create_row event.trade_id (disputed_row id event) d absent in
          (d', (sync-absent event id now d absent).0 ∙ ap ok_or_refused made)

      found_case :
          (b : Bool) (r : Dispute)
          → disputes.find_unique d event.trade_id ≡ some r
          → (d' : disputes.State) × (sync event id b now d ≡ ok d')
      found_case true r found = (_, (sync-present event id now d r found).1)
      found_case false r found = (d, (sync-present event id now d r found).0)

  abbrev pub Alike : disputes.State → disputes.State → Type 0
  Alike d d' = (k : String) → disputes.find_unique d' k ≡ disputes.find_unique d k

  -- A second synchronisation by the same event leaves the disputes as they are.
  pub initiated_again :
      (event : ParsedEvent) (id id' now now' : ℕ) (d d' : disputes.State)
      → sync event id false now d ≡ ok d'
      → (d'' : disputes.State) × (sync event id' false now' d' ≡ ok d'') × Alike d' d''
  initiated_again event id id' now now' d d' runs =
      let (r, found) = present (disputes.find_unique d event.trade_id) refl in
      (d', (sync-present event id' now' d' r found).0, λ k. refl)
    where
      present :
          (o : Option Dispute)
          → disputes.find_unique d event.trade_id ≡ o
          → (r : Dispute) × (disputes.find_unique d' event.trade_id ≡ some r)
      present none absent =
          let (d₁, made, row, others) =
            disputes.create_row event.trade_id (disputed_row id event) d absent in
          let made' : disputes.create event.trade_id (disputed_row id event) d ≡ some d' =
            accepted _ d' (sym (sync-absent event id now d absent).0 ∙ runs) in
          (
            _,
            ap (λ x. disputes.find_unique x event.trade_id) (some_injective (sym made' ∙ made))
                ∙ row,
          )
      present (some r) found = (
        r,
        ap (λ x. disputes.find_unique x event.trade_id)
              (ok_injective (sym runs ∙ (sync-present event id now d r found).0))
            ∙ found,
      )

  pub resolved_again :
      (event : ParsedEvent) (id id' now now' : ℕ) (d d' : disputes.State)
      → sync event id true now d ≡ ok d'
      → (d'' : disputes.State) × (sync event id' true now' d' ≡ ok d'') × Alike d' d''
  resolved_again event id id' now now' d d' runs =
      elim (Option-cases (disputes.find_unique d event.trade_id)) [
        | inl absent ↦
            let same : d' ≡ d = ok_injective (sym runs ∙ (sync-absent event id now d absent).1) in
            (
              d',
              (sync-absent event id' now' d'
                  (ap (λ x. disputes.find_unique x event.trade_id) same ∙ absent)).1,
              λ k. refl,
            )
        | inr (r, found) ↦
            let written = ok_injective (sym runs ∙ (sync-present event id now d r found).1) in
            let rows : (k : String)
                → disputes.find_unique d' k
                  ≡ changed p (chain_resolved now) (disputes.find_unique d k) =
              λ k.
                ap (λ x. disputes.find_unique x k) written
                ∙ disputes.find-update_many p (chain_resolved now) d k in
            let (r', there) = still_there p (chain_resolved now) r in
            let found' = rows event.trade_id ∙ ap (changed p (chain_resolved now)) found ∙ there in
            (
              _,
              (sync-present event id' now' d' r' found').1,
              λ k.
                  disputes.find-update_many p (chain_resolved now') d' k
                  ∙ ap (changed p (chain_resolved now')) (rows k)
                  ∙ resolved_once event now now' (disputes.find_unique d k)
                  ∙ sym (rows k),
            )
      ]
    where
      p : Dispute → Bool
      p = is_open_of event
