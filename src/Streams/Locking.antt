-- ===== src/Streams/Locking.antt =====
-- The maintenance lock of a stream.
use elite_work.Base.{
  ℕ, ◌≡◌, ◌≢◌, ◌↔◌, inl, inr, refl, sym, ap, ◌∙◌, String, true, Option, none, some, List, [], ◌∷◌,
  ◌++◌, arith,
}
use elite_work.Base.Tests.{Option-cases}
use elite_work.Base.Outcome.{Outcome, ok, throw, >>=-eq-ok, ◌>>◌}
use elite_work.Base.Table.{Table}
use elite_work.Streams.{
  Stream, StreamStatus, StreamError, not_found, AdminActionAudit, stream_lock, stream_unlock, audit,
  locked_row, unlocked_row, lock_result, unlock_result, lock, lock_read, unlock, unlock_read,
  includes, get_stream_or_throw, require_actionable_stream, assert_status_allowed,
  assert_not_locked,
}

throws_not : {e : StreamError} {r : Stream} → Path (Outcome StreamError Stream) (throw e) (ok r) → ⊥
throws_not h = cc

abbrev checks : Stream → List StreamStatus → Outcome StreamError Stream
checks x allowed = assert_status_allowed x allowed >> (assert_not_locked x >> ok x)

status_allowed_iff :
    (x : Stream) (allowed : List StreamStatus)
    → (assert_status_allowed x allowed ≡ ok tt) ↔ (includes allowed x.status ≡ true)
unfolding assert_status_allowed
status_allowed_iff x allowed = ground arith

not_locked_iff : (x : Stream) → (assert_not_locked x ≡ ok tt) ↔ (x.locked_at ≡ none)
unfolding assert_not_locked
not_locked_iff x = ground arith

checks-pass :
    (x : Stream) (allowed : List StreamStatus) (r : Stream)
    → checks x allowed ≡ ok r
    → (x ≡ r) × (includes allowed r.status ≡ true) × (r.locked_at ≡ none)
checks-pass x allowed r h =
    let (u, listed, h₁) = >>=-eq-ok (assert_status_allowed x allowed) _ h in
    let (v, free, h₂) = >>=-eq-ok (assert_not_locked x) _ h₁ in
    let same : x ≡ r = cc in
    (
      same,
      ap (λ y. includes allowed y.status) (sym same) ∙ (status_allowed_iff x allowed).0 listed,
      ap (λ y. y.locked_at) (sym same) ∙ (not_locked_iff x).0 free,
    )

module _ (streams : Table String Stream) where
  open streams use {State, find_unique, update, update_row}

  -- A stream that is not locked becomes locked, with one audit row, and no other stream changes.
  lock-locks :
      (k admin : String) (reason : Option String) (now : ℕ) (s : State)
      (audits : List AdminActionAudit) (r : Stream)
      → find_unique s k ≡ some r
      → r.locked_at ≡ none
      → (s' : State) × (lock streams k admin reason now (s, audits) ≡ (
        (s', audits ++ audit stream_lock admin k reason ∷ []),
        ok (lock_result k admin now reason),
      ))
        × (find_unique s' k ≡ some (locked_row admin reason now r))
        × ((j : String) → j ≢ k → find_unique s' j ≡ find_unique s j)
  unfolding lock lock_read
  lock-locks k admin reason now s audits r found free =
      let (s', updated, row, others) = update_row k (locked_row admin reason now) s r found in
      (s', rw (found, free, updated) refl, row, others)

  unlock-unlocks :
      (k admin : String) (reason : Option String) (now at : ℕ) (s : State)
      (audits : List AdminActionAudit) (r : Stream)
      → find_unique s k ≡ some r
      → r.locked_at ≡ some at
      → (s' : State) × (unlock streams k admin reason now (s, audits) ≡ (
        (s', audits ++ audit stream_unlock admin k reason ∷ []),
        ok (unlock_result k admin now reason),
      ))
        × (find_unique s' k ≡ some (unlocked_row r))
        × ((j : String) → j ≢ k → find_unique s' j ≡ find_unique s j)
  unfolding unlock unlock_read
  unlock-unlocks k admin reason now at s audits r found held =
      let (s', updated, row, others) = update_row k unlocked_row s r found in
      (s', rw (found, held, updated) refl, row, others)

  -- A lock and the unlock behind it leave every stream as it was, where the row carried no
  -- trace of an older lock, and leave one audit row each.
  unlock-lock :
      (k admin admin' : String) (reason reason' : Option String) (now later : ℕ) (s : State)
      (audits : List AdminActionAudit) (r : Stream)
      → find_unique s k ≡ some r
      → r.locked_at ≡ none
      → r.locked_by ≡ none
      → r.lock_reason ≡ none
      → let db = (lock streams k admin reason now (s, audits)).0 in
        let (db', outcome) = unlock streams k admin' reason' later db in
        (outcome ≡ ok (unlock_result k admin' later reason'))
        × (find_unique db'.0 k ≡ some r)
        × ((j : String) → j ≢ k → find_unique db'.0 j ≡ find_unique s j)
        × (db'.1
            ≡ (audits ++ audit stream_lock admin k reason ∷ [])
              ++ audit stream_unlock admin' k reason' ∷ [])
  unlock-lock k admin admin' reason reason' now later s audits r found free nobody unexplained =
      let (s₁, locks, row₁, others₁) = lock-locks k admin reason now s audits r found free in
      let (s₂, unlocks, row₂, others₂) =
        unlock-unlocks k admin' reason' later now s₁
          (audits ++ audit stream_lock admin k reason ∷ []) _ row₁ refl in
      rw (locks, unlocks)
        (
          refl,
          row₂ ∙ ap some (restored r free nobody unexplained),
          λ j ne. others₂ j ne ∙ others₁ j ne,
          refl,
        )
    where
      restored :
          (r : Stream)
          → r.locked_at ≡ none
          → r.locked_by ≡ none
          → r.lock_reason ≡ none
          → unlocked_row (locked_row admin reason now r) ≡ r
      restored r free nobody unexplained = ground (arith, free, nobody, unexplained)

  -- A stream passes the shared check of an administrator's action just when it is there, its status
  -- is one of those allowed, and it is not locked; the check returns it.
  pub require_actionable_stream_iff :
      (k : String) (allowed : List StreamStatus) (s : State) (r : Stream)
      → (require_actionable_stream streams k allowed s ≡ ok r)
        ↔ ((find_unique s k ≡ some r) × (includes allowed r.status ≡ true) × (r.locked_at ≡ none))
  unfolding require_actionable_stream get_stream_or_throw
  require_actionable_stream_iff k allowed s r = (
    λ h. elim (Option-cases (find_unique s k)) [
      | inl absent ↦ absurd (throws_not (sym (missing absent) ∙ h))
      | inr (x, found) ↦
          let (same, ok_status, free) = checks-pass x allowed r (sym (there x found) ∙ h) in
          (found ∙ ap some same, ok_status, free)
    ],
    λ (found, ok_status, free).
        there r found
        ∙ rw ((status_allowed_iff r allowed).1 ok_status, (not_locked_iff r).1 free) refl,
  )
    where
      missing :
          find_unique s k ≡ none → require_actionable_stream streams k allowed s ≡ throw not_found
      missing absent = rw (absent, get_stream_or_throw) refl

      there :
          (x : Stream)
          → find_unique s k ≡ some x
          → require_actionable_stream streams k allowed s ≡ checks x allowed
      there x found = rw (found, get_stream_or_throw) refl
