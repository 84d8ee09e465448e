-- ===== src/ClawbackLock/Exclusion.antt =====
-- Two pods that want the clawback of one stream.
use elite_work.Base.{
  ℕ, ◌+◌, ◌≡◌, ◌≢◌, ◌<◌, inl, inr, refl, sym, ap, ◌∙◌, subst, String, Bool, true, false, some, List,
  [], ◌∷◌, arith,
}
use elite_work.Base.Tests.{ltb, Option-cases}
use elite_work.Base.Lists.{All}
use elite_work.Base.Outcome.{ok}
use elite_work.Base.Redis.{Redis, Value, text_value}
use elite_work.ClawbackLock.{Key, clawback_lock, Pod, has, acquire, acquire_async, release}

module _ (redis : Redis Key) (stream_id : String) where
  open redis use {
    State, get, set_ex, set_nx_ex, del, get-set_ex, set_nx_ex_free, set_nx_ex_taken, get-del,
  }

  -- What anyone does about the lock of the stream but release it: pods that ask for it, and those
  -- that ask whether it is held.
  pub data Attempt : Type 0 where
    asks : (answers : Bool) (at : ℕ) → Pod → Attempt
    asks_in_background : (ready : Bool) (at : ℕ) → Pod → Attempt

  abbrev pub attempted : Attempt → State → State
  attempted (asks answers at pod) s = (acquire_async redis stream_id answers at pod s).1
  attempted (asks_in_background ready at pod) s = (acquire redis stream_id ready at pod s).1

  abbrev pub attempts : List Attempt → State → State
  attempts [] s = s
  attempts (a ∷ rest) s = attempts rest (attempted a s)

  abbrev pub time_of : Attempt → ℕ
  time_of (asks answers at pod) = at
  time_of (asks_in_background ready at pod) = at

  -- The entry of the stream is there until the second `ends`.
  abbrev pub IsHeld : State → (ends : ℕ) → Type 0
  IsHeld s ends = (t : ℕ) → t < ends → (v : Value) × (get s t (clawback_lock stream_id) ≡ some v)

  won-IsHeld :
      (answers : Bool) (now : ℕ) (pod : Pod) (s : State)
      → (acquire_async redis stream_id answers now pod s).2 ≡ ok tt
      → IsHeld (acquire_async redis stream_id answers now pod s).1 (now + 30)
  unfolding acquire_async
  won-IsHeld answers now pod s runs t before =
      elim (Option-cases (get s now (clawback_lock stream_id))) [
        | inl free ↦
            let set = set_nx_ex_free (clawback_lock stream_id) (text_value "1") 30 now s free in
            let live : ltb t (now + 30) ≡ true = ground arith in
            let row = get-set_ex (clawback_lock stream_id) (text_value "1") 30 now t s in
            (text_value "1", ground (arith, set, live, row, runs))
        | inr (w, taken) ↦
            let kept =
              set_nx_ex_taken (clawback_lock stream_id) (text_value "1") w 30 now s taken in
            absurd (ground (arith, kept, runs))
      ]

  attempted-held :
      (a : Attempt) (s : State) (ends : ℕ) → IsHeld s ends → time_of a < ends → attempted a s ≡ s
  unfolding acquire acquire_async
  attempted-held (asks answers at pod) s ends held before =
      let (v, taken) = held at before in
      let kept = set_nx_ex_taken (clawback_lock stream_id) (text_value "1") v 30 at s taken in
      ground (arith, kept)
  attempted-held (asks_in_background ready at pod) s ends held before =
      let (v, taken) = held at before in
      let kept = set_nx_ex_taken (clawback_lock stream_id) (text_value "1") v 30 at s taken in
      ground (arith, kept)

  attempts-held :
      (rest : List Attempt) (s : State) (ends : ℕ)
      → IsHeld s ends
      → All (λ a. time_of a < ends) rest
      → attempts rest s ≡ s
  attempts-held [] s ends held before = refl
  attempts-held (a ∷ rest) s ends held (first, others) =
      ap (attempts rest) (attempted-held a s ends held first)
      ∙ attempts-held rest s ends held others

  held-refuses :
      (answers : Bool) (later ends : ℕ) (pod : Pod) (s : State)
      → IsHeld s ends
      → later < ends
      → (acquire_async redis stream_id answers later pod s).2 ≢ ok tt
  unfolding acquire_async
  held-refuses answers later ends pod s held before runs =
      let (v, taken) = held later before in
      let kept = set_nx_ex_taken (clawback_lock stream_id) (text_value "1") v 30 later s taken in
      ground (arith, kept, runs)

  -- Behind an acquisition that succeeds, until its entry runs out and as long as nobody releases it,
  -- no pod that waits for the answer of Redis gets the lock, whatever attempts come in between.
  pub acquire_async-excludes :
      (answers answers' : Bool) (now later : ℕ) (pod other : Pod) (between : List Attempt)
      (s : State)
      → (acquire_async redis stream_id answers now pod s).2 ≡ ok tt
      → All (λ a. time_of a < now + 30) between
      → later < now + 30
      → (acquire_async redis stream_id answers' later other
          (attempts between (acquire_async redis stream_id answers now pod s).1)).2
        ≢ ok tt
  acquire_async-excludes answers answers' now later pod other between s runs before live =
      let held = won-IsHeld answers now pod s runs in
      subst (λ x. (acquire_async redis stream_id answers' later other x).2 ≢ ok tt)
        (sym (attempts-held between _ (now + 30) held before))
        (held-refuses answers' later (now + 30) other _ held live)

  -- A release by a pod that does not hold the lock opens it to the next pod that asks.
  release_opens :
      (now later : ℕ) (pod other third : Pod) (s : State)
      → has stream_id third ≡ false
      → let s' = (acquire_async redis stream_id true now pod s).1 in
        (acquire_async redis stream_id true later third (release redis stream_id true other s').1).2
        ≡ ok tt
  unfolding acquire_async release
  release_opens now later pod other third s fresh =
      let s' = (acquire_async redis stream_id true now pod s).1 in
      let free =
        set_nx_ex_free (clawback_lock stream_id) (text_value "1") 30 later
          (del (clawback_lock stream_id) s') (get-del (clawback_lock stream_id) later s') in
      rw (free, fresh) refl
