-- ===== src/Disputes/Sync.antt =====
-- Synchronisation of a dispute from the events of the chain.
use elite_work.Base.{
  ℕ, ◌≡◌, ◌≢◌, refl, ap, ◌∙◌, String, true, false, Option, none, some, arith, inl, inr,
}
use elite_work.Base.Tests.{if◌then◌else◌, Bool-cases, get_or_else}
use elite_work.Base.Outcome.{ok, throw}
use elite_work.Base.Table.{Table}
use elite_work.Disputes.{
  Dispute, is_active_as_read, chain_resolved, is_terminal_dispute_status, resolve_active,
  resolve_found, initiate_unless, sync_dispute_resolved_from_chain,
  sync_dispute_initiated_from_chain, initiated, chain_sync_conflict, created_or_throw,
}

active_as_read_refl :
    (d : Dispute) → is_terminal_dispute_status d.status ≡ false → is_active_as_read d d ≡ true
unfolding is_active_as_read is_terminal_dispute_status
active_as_read_refl d live = ground arith

module _ (disputes : Table String Dispute) where
  open disputes use {
    State, find_unique, update_many, find-update_many, count_some, count_none, create_row,
  }

  -- How the table stands after a sync of the dispute that was read.
  abbrev pub Synced : State → State → String → (now : ℕ) → Option Dispute → Type 0
  Synced s s' k now none = Path State s' s
  Synced s s' k now (some d) =
      if is_terminal_dispute_status d.status
      then Path State s' s
      else Path (Option Dispute) (find_unique s' k) (some (chain_resolved now d))

  resolve_live :
      (s : State) (k : String) (now : ℕ) (d : Dispute)
      → find_unique s k ≡ some d
      → is_terminal_dispute_status d.status ≡ false
      → let s' = (update_many (is_active_as_read d) (chain_resolved now) s).0 in
        (resolve_active disputes d now s ≡ ok s') × (find_unique s' k ≡ some (chain_resolved now d))
  unfolding resolve_active
  resolve_live s k now d found live =
      let hit = active_as_read_refl d live in
      let some_row = count_some (is_active_as_read d) (chain_resolved now) s k d found hit in
      (
        ground (arith, live, some_row),
        find-update_many (is_active_as_read d) (chain_resolved now) s k ∙ rw (found, hit) refl,
      )

  resolve_found-Synced :
      (s : State) (k : String) (now : ℕ) (o : Option Dispute)
      → find_unique s k ≡ o
      → (s' : State) × (resolve_found disputes o now s ≡ ok s') × Synced s s' k now o
  unfolding resolve_found resolve_active
  resolve_found-Synced s k now none e = (s, refl, refl)
  resolve_found-Synced s k now (some d) e =
      elim (Bool-cases (is_terminal_dispute_status d.status)) [
        | inl done ↦ (s, rw done refl, rw done refl)
        | inr live ↦ let (runs, row) = resolve_live s k now d e live in (_, runs, rw live row)
      ]

  -- Read and written with nothing in between, an active dispute is resolved; a terminal one and a
  -- trade without a dispute are left as they are. The sync never fails.
  pub sync_resolved :
      (s : State) (k : String) (now : ℕ)
      → (s' : State) × (sync_dispute_resolved_from_chain disputes k now s ≡ ok s')
        × Synced s s' k now (find_unique s k)
  unfolding sync_dispute_resolved_from_chain
  sync_resolved s k now = resolve_found-Synced s k now (find_unique s k) refl

  -- When another writer has moved the dispute since it was read, the sync throws.
  pub resolve_active_conflict :
      (s : State) (d : Dispute) (now : ℕ)
      → is_terminal_dispute_status d.status ≡ false
      → ((j : String) (r : Dispute)
          → find_unique s j ≡ some r
          → r.id ≡ d.id
          → r.version ≢ d.version)
      → resolve_active disputes d now s ≡ throw chain_sync_conflict
  unfolding resolve_active is_active_as_read
  resolve_active_conflict s d now live moved =
      let missed =
        count_none (is_active_as_read d) (chain_resolved now) s
          λ j r e. ground (arith, moved j r e) in
      ground (arith, live, missed)

  initiated_of :
      (s : State) (id : ℕ) (k initiator : String) (o : Option Dispute)
      → find_unique s k ≡ o
      → (s' : State) × (initiate_unless disputes o id k initiator s ≡ ok s')
        × (find_unique s' k ≡ some (get_or_else o (initiated id k initiator)))
        × ((j : String) → j ≢ k → find_unique s' j ≡ find_unique s j)
  unfolding initiate_unless
  initiated_of s id k initiator (some d) e = (s, refl, e, λ j ne. refl)
  initiated_of s id k initiator none e =
      let (s', made, row, others) = create_row k (initiated id k initiator) s e in
      (s', ap (created_or_throw disputes) made, row, others)

  -- Behind the sync of an initiation the trade has a dispute: the one that was there, untouched, or
  -- a new open one. No other dispute changes.
  pub sync_initiated :
      (s : State) (id : ℕ) (k initiator : String)
      → (s' : State) × (sync_dispute_initiated_from_chain disputes id k initiator s ≡ ok s')
        × (find_unique s' k ≡ some (get_or_else (find_unique s k) (initiated id k initiator)))
        × ((j : String) → j ≢ k → find_unique s' j ≡ find_unique s j)
  unfolding sync_dispute_initiated_from_chain
  sync_initiated s id k initiator = initiated_of s id k initiator (find_unique s k) refl
