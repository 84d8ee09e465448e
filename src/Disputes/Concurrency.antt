-- ===== src/Disputes/Concurrency.antt =====
-- Optimistic concurrency: of two writers that read the same row, the first to write wins.
use elite_work.Base.{ℕ, ◌≡◌, refl, sym, ap, ◌∙◌, String, true, false, Option, none, some, arith}
use elite_work.Base.Tests.{ltb, lt→ltb}
use elite_work.Base.Table.{Table, changed}
use elite_work.Disputes.{
  Dispute, DisputeStatus, open_status, under_review, resolved, closed, same_status, transitioned,
  is_as_read, apply_dispute_status_transition,
}

pub same_status_refl : (s : DisputeStatus) → same_status s s ≡ true
unfolding same_status
same_status_refl open_status = refl
same_status_refl under_review = refl
same_status_refl resolved = refl
same_status_refl closed = refl

as_read_refl : (d : Dispute) → is_as_read d d ≡ true
unfolding is_as_read
as_read_refl d = ground (arith, same_status_refl d.status)

module _ (disputes : Table String Dispute) where
  open disputes use {State, find_unique, update_many, find-update_many, count_some, count_none}

  module _ (s : State) (k : String) (read : Dispute) (found : find_unique s k ≡ some read) where
    -- A writer whose reading is current wins, and leaves the row that its transition describes.
    pub apply_current :
        (to : DisputeStatus) (now : ℕ)
        → let (s', applied) = apply_dispute_status_transition disputes read to now s in
          (applied ≡ true) × (find_unique s' k ≡ some (transitioned to now read))
    unfolding apply_dispute_status_transition
    apply_current to now = (
      lt→ltb 0 _ (count_some _ _ s k read found (as_read_refl read)),
      find-update_many _ _ s k ∙ rw (found, as_read_refl read) refl,
    )

  -- A writer whose reading is stale loses, and no row changes.
  pub apply_stale :
      (s : State) (read : Dispute) (to : DisputeStatus) (now : ℕ)
      → ((j : String) (r : Dispute) → find_unique s j ≡ some r → is_as_read read r ≡ false)
      → let (s', applied) = apply_dispute_status_transition disputes read to now s in
        (applied ≡ false) × ((j : String) → find_unique s' j ≡ find_unique s j)
  unfolding apply_dispute_status_transition
  apply_stale s read to now stale = (
    ap (ltb 0) (count_none (is_as_read read) (transitioned to now) s stale),
    λ j.
        find-update_many (is_as_read read) (transitioned to now) s j
        ∙ kept j (find_unique s j) refl,
  )
    where
      kept :
          (j : String) (o : Option Dispute)
          → find_unique s j ≡ o
          → changed (is_as_read read) (transitioned to now) o ≡ o
      kept j none e = refl
      kept j (some r) e = rw (stale j r e) refl

  -- Behind a write no row is any more as its writer had read it.
  behind_write :
      (read : Dispute) (to : DisputeStatus) (now : ℕ) (o : Option Dispute) (r : Dispute)
      → changed (is_as_read read) (transitioned to now) o ≡ some r
      → is_as_read read r ≡ false
  unfolding is_as_read transitioned
  behind_write read to now none r e = cc
  behind_write read to now (some old) r e = ground arith

  after_write :
      (s : State) (read : Dispute) (to : DisputeStatus) (now : ℕ) (j : String) (r : Dispute)
      → find_unique (apply_dispute_status_transition disputes read to now s).0 j ≡ some r
      → is_as_read read r ≡ false
  unfolding apply_dispute_status_transition
  after_write s read to now j r e =
      behind_write read to now (find_unique s j) r (sym (find-update_many _ _ s j) ∙ e)

  -- Of two writers that read the same dispute the first one wins, and the second one changes nothing.
  pub race :
      (s : State) (k : String) (read : Dispute) (to₁ to₂ : DisputeStatus) (now₁ now₂ : ℕ)
      → find_unique s k ≡ some read
      → let (s₁, applied₁) = apply_dispute_status_transition disputes read to₁ now₁ s in
        let (s₂, applied₂) = apply_dispute_status_transition disputes read to₂ now₂ s₁ in
        (applied₁ ≡ true)
        × (applied₂ ≡ false)
        × (find_unique s₁ k ≡ some (transitioned to₁ now₁ read))
        × ((j : String) → find_unique s₂ j ≡ find_unique s₁ j)
  race s k read to₁ to₂ now₁ now₂ found =
      let (won, row) = apply_current s k read found to₁ now₁ in
      let (lost, kept) = apply_stale _ read to₂ now₂ (after_write s read to₁ now₁) in
      (won, lost, row, kept)
