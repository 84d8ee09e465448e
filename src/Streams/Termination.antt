-- ===== src/Streams/Termination.antt =====
-- The termination of a stream, once, twice, and by two administrators at once.
use elite_work.Base.{
  ℕ, ◌≡◌, ◌≢◌, inl, inr, refl, sym, ap, ◌∙◌, subst, String, Bool, true, false, Option, none, some,
  List, [], ◌∷◌, ◌++◌,
}
use elite_work.Base.Tests.{Option-cases, Bool-cases}
use elite_work.Base.Outcome.{Outcome, ok, throw, Outcome-cases}
use elite_work.Base.Table.{Table}
use elite_work.Streams.{
  Stream, StreamStatus, active, suspended, terminated, completed, StreamError, not_found,
  not_terminable, AdminActionAudit, stream_terminate, audit, terminated_row, terminate,
  terminate_read, terminate_result, TerminateStreamResult, includes, same_status,
  terminable_statuses, signed_by,
}

abbrev pub is_terminable : StreamStatus → Bool
is_terminable active = true
is_terminable suspended = true
is_terminable terminated = false
is_terminable completed = false

includes-terminable : (x : StreamStatus) → includes terminable_statuses x ≡ is_terminable x
unfolding same_status
includes-terminable active = refl
includes-terminable suspended = refl
includes-terminable terminated = refl
includes-terminable completed = refl

throws_not :
    {e : StreamError} {r : TerminateStreamResult}
    → Path (Outcome StreamError TerminateStreamResult) (throw e) (ok r)
    → ⊥
throws_not h = cc

module _ (streams : Table String Stream) (sign : String → Option String) (k : String) where
  open streams use {State, find_unique, update, update_row, update_absent}

  abbrev pub Db : Type 0
  Db = State × List AdminActionAudit

  -- Terminating a stream that is there, live, and signed: its row, one audit row, and the answer.
  terminate_read-done :
      (admin : String) (reason xdr : Option String) (now : ℕ) (x : Option String) (read r : Stream)
      (s : State) (audits : List AdminActionAudit)
      → is_terminable read.status ≡ true
      → signed_by sign xdr ≡ ok x
      → find_unique s k ≡ some r
      → (s' : State) × (terminate_read streams sign k admin reason xdr now (some read) (s, audits)
          ≡ (
            (s', audits ++ audit stream_terminate admin k reason ∷ []),
            ok (
                terminate_result read.status admin reason now k x
                  (terminated_row admin reason now r)),
          ))
        × (find_unique s' k ≡ some (terminated_row admin reason now r))
        × ((j : String) → j ≢ k → find_unique s' j ≡ find_unique s j)
  unfolding terminate_read
  terminate_read-done admin reason xdr now x read r s audits live signs found =
      let (s', updated, row, others) = update_row k (terminated_row admin reason now) s r found in
      (s', rw (includes-terminable read.status, live, signs, updated) refl, row, others)

  abbrev pub ends :
      (admin : String) (reason xdr : Option String) (now : ℕ)
      → Db
      → Db × Outcome StreamError TerminateStreamResult
  ends admin reason xdr now db = terminate streams sign k admin reason xdr now db

  terminate-read :
      (admin : String) (reason xdr : Option String) (now : ℕ) (db : Db) (o : Option Stream)
      → find_unique db.0 k ≡ o
      → ends admin reason xdr now db ≡ terminate_read streams sign k admin reason xdr now o db
  unfolding terminate
  terminate-read admin reason xdr now db o e = rw e refl

  -- A termination that returns has met a live stream and a signature.
  terminate_read-parts :
      (admin : String) (reason xdr : Option String) (now : ℕ) (read : Stream) (db : Db)
      (result : TerminateStreamResult)
      → (terminate_read streams sign k admin reason xdr now (some read) db).1 ≡ ok result
      → (is_terminable read.status ≡ true) × (x : Option String) × (signed_by sign xdr ≡ ok x)
  unfolding terminate_read
  terminate_read-parts admin reason xdr now read db result runs =
      elim (Bool-cases (is_terminable read.status)) [
        | inr dead ↦ absurd (throws_not (sym (not_live dead) ∙ runs))
        | inl live ↦ elim (Outcome-cases (signed_by sign xdr)) [
          | inl (x, signs) ↦ (live, x, signs)
          | inr (e, fails) ↦ absurd (throws_not (sym (not_signed live e fails) ∙ runs))
        ]
      ]
    where
      not_live :
          is_terminable read.status ≡ false
          → (terminate_read streams sign k admin reason xdr now (some read) db).1
            ≡ throw (not_terminable read.status)
      not_live dead = rw (includes-terminable read.status, dead) refl

      not_signed :
          is_terminable read.status ≡ true
          → (e : StreamError) → signed_by sign xdr ≡ throw e
          → (terminate_read streams sign k admin reason xdr now (some read) db).1 ≡ throw e
      not_signed live e fails = rw (includes-terminable read.status, live, fails) refl

  -- A terminated stream is not terminated.
  ends-terminated :
      (admin : String) (reason xdr : Option String) (now : ℕ) (db : Db) (r : Stream)
      → find_unique db.0 k ≡ some r
      → r.status ≡ terminated
      → ends admin reason xdr now db ≡ (db, throw (not_terminable terminated))
  unfolding terminate_read
  ends-terminated admin reason xdr now db r found dead =
      terminate-read admin reason xdr now db (some r) found
      ∙ rw (includes-terminable r.status, dead) refl

  -- A stream is terminated once: a second termination behind one that returned throws, whoever asks
  -- for it, and writes nothing.
  pub terminate_once :
      (admin admin' : String) (reason reason' xdr xdr' : Option String) (now later : ℕ) (db : Db)
      (result : TerminateStreamResult)
      → (ends admin reason xdr now db).1 ≡ ok result
      → let db' = (ends admin reason xdr now db).0 in
        ends admin' reason' xdr' later db' ≡ (db', throw (not_terminable terminated))
  unfolding terminate_read
  terminate_once admin admin' reason reason' xdr xdr' now later db result runs =
      elim (Option-cases (find_unique db.0 k)) [
        | inl absent ↦ absurd (nothing_there absent)
        | inr (r, found) ↦
            let whole = terminate-read admin reason xdr now db (some r) found in
            let (live, x, signs) =
              terminate_read-parts admin reason xdr now r db result
                (ap (λ y. y.1) (sym whole) ∙ runs) in
            let (s', done, row, others) =
              terminate_read-done admin reason xdr now x r r db.0 db.1 live signs found in
            let state = ap (λ y. y.0) (whole ∙ done) in
            subst (λ y. ends admin' reason' xdr' later y ≡ (y, throw (not_terminable terminated)))
              (sym state)
              (ends-terminated admin' reason' xdr' later _ (terminated_row admin reason now r) row
                refl)
      ]
    where
      nothing_read :
          terminate_read streams sign k admin reason xdr now none db ≡ (db, throw not_found)
      nothing_read = refl

      nothing_there : find_unique db.0 k ≡ none → ⊥
      nothing_there absent = throws_not (
          ap (λ y. y.1) (sym (terminate-read admin reason xdr now db none absent ∙ nothing_read))
          ∙ runs)

  -- What the termination of `r` by an administrator has left of its row.
  abbrev pub IsTerminatedBy :
      (admin : String) (reason : Option String) (now : ℕ) (r : Stream) → Option Stream → Type 0
  IsTerminatedBy admin reason now r found =
      (row : Stream) × (found ≡ some row)
      × (row.status ≡ terminated)
      × (row.terminated_by ≡ some admin)
      × (row.terminated_at ≡ some now)
      × (row.termination_reason ≡ reason)
      × (row.recipient ≡ r.recipient)
      × (row.unclaimed ≡ r.unclaimed)

  -- An answer that names the administrator, the time and the status that the stream had.
  abbrev pub IsToldTo :
      (admin : String) (now : ℕ) (r : Stream) → Outcome StreamError TerminateStreamResult → Type 0
  IsToldTo admin now r answer =
      (result : TerminateStreamResult) × (answer ≡ ok result)
      × (result.terminated_by ≡ admin)
      × (result.terminated_at ≡ now)
      × (result.previous_status ≡ r.status)
      × (result.status ≡ terminated)

  -- Two administrators who have both read the stream while it was live, with no transaction to sign,
  -- both terminate it: each is told that it is done and by whom, each gets an audit row, the row keeps
  -- the second one's name, time and reason, and nothing of the first one's. Other streams stay.
  pub terminate_race :
      (admin admin' : String) (reason reason' : Option String) (now later : ℕ) (r : Stream)
      (s : State) (audits : List AdminActionAudit)
      → find_unique s k ≡ some r
      → is_terminable r.status ≡ true
      → let (db₁, first) =
          terminate_read streams sign k admin reason none now (some r) (s, audits) in
        let (db₂, second) = terminate_read streams sign k admin' reason' none later (some r) db₁ in
        IsToldTo admin now r first
        × IsToldTo admin' later r second
        × IsTerminatedBy admin' reason' later r (find_unique db₂.0 k)
        × (db₂.1
            ≡ (audits ++ audit stream_terminate admin k reason ∷ [])
              ++ audit stream_terminate admin' k reason' ∷ [])
        × ((j : String) → j ≢ k → find_unique db₂.0 j ≡ find_unique s j)
  terminate_race admin admin' reason reason' now later r s audits found live =
      let (s₁, done₁, row₁, others₁) =
        terminate_read-done admin reason none now none r r s audits live refl found in
      let (s₂, done₂, row₂, others₂) =
        terminate_read-done admin' reason' none later none r _ s₁
          (audits ++ audit stream_terminate admin k reason ∷ []) live refl row₁ in
      rw (done₁, done₂)
        (
          (_, refl, refl, refl, refl, refl),
          (_, refl, refl, refl, refl, refl),
          (_, row₂, refl, refl, refl, refl, refl, refl),
          refl,
          λ j other. others₂ j other ∙ others₁ j other,
        )
