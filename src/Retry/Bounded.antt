-- ===== src/Retry/Bounded.antt =====
-- The loop of `retryAsync`: that it ends, when, and with what.
use elite_work.Base.{
  ℕ, zero, suc, ◌+◌, ◌-◌, ◌≤◌, ◌<◌, ◌≡◌, inl, inr, refl, sym, subst, true, false, some, arith,
}
use elite_work.Base.Tests.{ltb, leb, Bool-cases}
use elite_work.Base.Outcome.{Outcome, ok, throw, Outcome-cases}
use elite_work.Retry.{
  RetryOptions, RetryOutcome, success, exhausted, non_retryable, budget_exceeded, Run, Random,
  Sleep, run, delay_ms, retry_from, retry_async,
}

module _ {E T : Type 0} (operation : (attempt now : ℕ) → ℕ × Outcome E T) (random : Random)
    (sleep : Sleep) (options : RetryOptions E) (start_time : ℕ) where
  -- The attempts that a run gets to, each with the time that it begins at. A retry follows an attempt
  -- with an error that may be tried again, while retries are left and the time that has gone by makes
  -- no more than the budget together with the delay; it begins when the sleep is over.
  pub data Begins : (attempt now : ℕ) → Type 0 where
    first : Begins 0 start_time
    retry :
        (attempt now : ℕ) (e : E)
        → Begins attempt now
        → (operation attempt now).1 ≡ throw e
        → options.should_retry e ≡ true
        → attempt < options.max_retries
        → (operation attempt now).0 - start_time + delay_ms random options attempt
          ≤ options.budget_ms
        → Begins
            (suc attempt)
            (sleep attempt (operation attempt now).0 (delay_ms random options attempt))

  -- Why a run ended as it did, with the attempt that was its last and the time that it began at.
  abbrev pub IsGrounds : (attempt now : ℕ) → RetryOutcome → Type 0
  IsGrounds attempt now success = (v : T) × ((operation attempt now).1 ≡ ok v)
  IsGrounds attempt now exhausted =
      (e : E) × ((operation attempt now).1 ≡ throw e)
      × (options.should_retry e ≡ true)
      × (options.max_retries ≤ attempt)
  IsGrounds attempt now non_retryable =
      (e : E) × ((operation attempt now).1 ≡ throw e) × (options.should_retry e ≡ false)
  IsGrounds attempt now budget_exceeded =
      (e : E) × ((operation attempt now).1 ≡ throw e)
      × (options.should_retry e ≡ true)
      × (options.budget_ms
          < (operation attempt now).0 - start_time + delay_ms random options attempt)

  -- A run that ends well: at most one attempt and the retries, the last of which the run gets to, and
  -- which gave what the run gives, for the reason that the run records.
  abbrev pub IsEnded : Run E T → Type 0
  IsEnded r =
      (r.attempts ≤ options.max_retries + 1)
      × (attempt : ℕ) × (now : ℕ) × (r.attempts ≡ attempt + 1)
      × Begins attempt now
      × (r.given ≡ (operation attempt now).1)
      × (r.ended_at ≡ (operation attempt now).0)
      × IsGrounds attempt now r.outcome

  abbrev ended_run : (attempt now : ℕ) → Outcome E T → RetryOutcome → Run E T
  ended_run attempt now given outcome =
      run operation random sleep options start_time given outcome attempt (operation attempt now).0

  -- The attempt after which a run ends, for the reason that it records.
  ended_run-IsEnded :
      (attempt now : ℕ) (given : Outcome E T) (outcome : RetryOutcome)
      → attempt ≤ options.max_retries
      → Begins attempt now
      → given ≡ (operation attempt now).1
      → IsGrounds attempt now outcome
      → IsEnded (ended_run attempt now given outcome)
  ended_run-IsEnded attempt now given outcome few begins gives grounds =
      (omega (arith, few), attempt, now, refl, begins, gives, refl, grounds)

  from-IsEnded :
      (fuel attempt now : ℕ)
      → fuel + attempt ≡ options.max_retries + 1
      → 0 < fuel
      → Begins attempt now
      → (r : Run E T) × (retry_from operation random sleep options start_time fuel attempt now
          ≡ some r)
        × IsEnded r
  unfolding retry_from
  from-IsEnded zero attempt now enough left begins = absurd (omega (arith, left))
  from-IsEnded (suc fuel) attempt now enough left begins =
      elim (Outcome-cases (operation attempt now).1) [
        | inl (v, gives) ↦ (
          ended_run attempt now (ok v) success,
          rw gives refl,
          ended_run-IsEnded attempt now (ok v) success (omega (arith, enough)) begins (sym gives)
              (v, gives),
        )
        | inr (e, fails) ↦ elim (Bool-cases (options.should_retry e)) [
          | inr final ↦ (
            ended_run attempt now (throw e) non_retryable,
            rw (fails, final) refl,
            ended_run-IsEnded attempt now (throw e) non_retryable (omega (arith, enough)) begins
                (sym fails) (e, fails, final),
          )
          | inl again ↦ elim (Bool-cases (leb options.max_retries attempt)) [
            | inl last ↦ (
              ended_run attempt now (throw e) exhausted,
              rw (fails, again, last) refl,
              ended_run-IsEnded attempt now (throw e) exhausted (omega (arith, enough)) begins
                  (sym fails) (e, fails, again, ground (arith, last)),
            )
            | inr more ↦
                elim (Bool-cases (
                  ltb options.budget_ms
                    ((operation attempt now).0 - start_time + delay_ms random options attempt))) [
                      | inl late ↦ (
                        ended_run attempt now (throw e) budget_exceeded,
                        rw (fails, again, more, late) refl,
                        ended_run-IsEnded attempt now (throw e) budget_exceeded
                            (omega (arith, enough)) begins (sym fails)
                            (e, fails, again, ground (arith, late)),
                      )
                      | inr early ↦
                          let next =
                            retry attempt now e begins fails again (ground (arith, more))
                              (ground (arith, early)) in
                          let behind =
                            sleep attempt (operation attempt now).0
                              (delay_ms random options attempt) in
                          let one_more : suc attempt ≡ attempt + 1 = omega arith in
                          let (r, runs, ended) =
                            from-IsEnded fuel (attempt + 1) behind (omega (arith, enough))
                              (ground (arith, more, enough))
                              (subst (λ n. Begins n behind) one_more next) in
                          (r, rw (fails, again, more, early) runs, ended)
                    ]
          ]
        ]
      ]

  -- The loop ends, however long the operation and the sleeps take (with a clock that does not fall
  -- behind the start). It has made at most one attempt and the
  -- retries; each retry followed an error that may be tried again, behind a sleep that the time budget
  -- had room for when it began; and the run gives what the last attempt gave: a value, or an error that
  -- is final, behind the last retry, or followed by a sleep that the budget has no room for.
  pub retry_async-IsEnded :
      (r : Run E T) × (retry_async operation random sleep options start_time ≡ some r) × IsEnded r
  unfolding retry_async
  retry_async-IsEnded =
      from-IsEnded (options.max_retries + 1) 0 start_time (omega arith) (omega arith) first

  -- Where an operation and a sleep do not set the clock back, and a sleep is late by at most `slack`,
  -- each attempt begins within the budget and that slack.
  Begins-in_time :
      (slack : ℕ)
      → ((attempt now : ℕ) → now ≤ (operation attempt now).0)
      → ((attempt started delay : ℕ)
          → (started ≤ sleep attempt started delay)
            × (sleep attempt started delay ≤ started + delay + slack))
      → {attempt now : ℕ} → Begins attempt now
      → (start_time ≤ now) × (now ≤ start_time + options.budget_ms + slack)
  Begins-in_time slack forward late first = (omega arith, omega arith)
  Begins-in_time slack forward late (retry attempt now e before fails again few room) =
      let (started, in_time) = Begins-in_time slack forward late before in
      let went_on = forward attempt now in
      let (behind, awake) =
        late attempt (operation attempt now).0 (delay_ms random options attempt) in
      (omega (arith, started, went_on, behind), omega (arith, started, went_on, awake, room))

  -- A run is over within the time budget, the longest time that an attempt takes, and the longest time
  -- that a sleep is late: that is, where no attempt takes longer than `longest`, a sleep ends no earlier
  -- than it begins and late by at most `slack`, and the clock is not set back.
  pub retry_async-ended_at :
      (slack longest : ℕ)
      → ((attempt now : ℕ)
          → (now ≤ (operation attempt now).0) × ((operation attempt now).0 ≤ now + longest))
      → ((attempt started delay : ℕ)
          → (started ≤ sleep attempt started delay)
            × (sleep attempt started delay ≤ started + delay + slack))
      → (r : Run E T) × (retry_async operation random sleep options start_time ≡ some r)
        × (r.ended_at ≤ start_time + options.budget_ms + slack + longest)
  retry_async-ended_at slack longest takes late =
      let (r, runs, (few, attempt, now, counted, begins, gives, ended, grounds)) =
        retry_async-IsEnded in
      let (started, in_time) = Begins-in_time slack (λ a n. (takes a n).0) late begins in
      let (forward, brief) = takes attempt now in (r, runs, omega (arith, ended, brief, in_time))
