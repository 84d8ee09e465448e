-- ===== src/Tests/Streams.antt =====
-- Locks, streams, retries and pages at concrete inputs.
use text.Mathlib.Text.{◌==◌ as str_eq}
use text.Mathlib.TextEquality.{eq_iff}
use Prim.Native.String
use Prim.Native.String.{char_at}
use Prim.Native.Char.{Char}
use elite_work.Base.{
  ℕ, zero, suc, ◌-◌, ◌+◌, ◌≡◌, ◌≢◌, ◌≤◌, ◌↔◌, refl, inl, inr, sym, ap, ◌∙◌, String, Bool, true,
  false, Option, none, some, [], ◌∷◌, ◌++◌, arith,
}
use elite_work.Base.Tests.{ltb, Bool-cases, if◌then◌else◌}
use elite_work.Base.Outcome.{Outcome, ok, throw}
use elite_work.Base.Table.{Table}
use elite_work.Base.Table.Keyed.{keyed_by_text, lookup}
use elite_work.Base.Redis.{Redis}
use elite_work.Base.Redis.Timed.{timed}
use elite_work.ClawbackLock.{Key, clawback_lock, has, add, acquire_async}
use elite_work.ClawbackLock.Exclusion.{acquire_async-excludes, asks, attempts}
use elite_work.Streams.{
  Stream, active, terminated, audit, stream_terminate, terminated_row, terminate, terminate_read,
  terminate_result, TerminateStreamResult, not_terminable, same_status,
}
use elite_work.Streams.Termination.{terminate_once, terminate_race, IsToldTo, IsTerminatedBy}
use elite_work.Retry.{RetryOptions, Run, retry_async}
use elite_work.Retry.Bounded.{retry_async-IsEnded, retry_async-ended_at, IsEnded}
use elite_work.Pagination.{Codec, fraction, normalize_cursor_limit}
use elite_work.Pagination.Walk.{walk_complete, walk}

abbrev same_key : Key → Key → Bool
same_key (clawback_lock a) (clawback_lock b) = str_eq a b

same_key_iff : (j k : Key) → (same_key j k ≡ true) ↔ (j ≡ k)
same_key_iff (clawback_lock a) (clawback_lock b) = ground (arith, eq_iff a b)

abbrev redis : Redis Key
redis = timed Key same_key same_key_iff

abbrev empty : redis.State
empty = λ k. none

acquires : (acquire_async redis "s-1" true 100 [] empty).2 ≡ ok tt
unfolding acquire_async has add
acquires = refl

acquire_async-excludes_example :
    (acquire_async redis "s-1" true 129 [] (
      attempts redis "s-1"
        (asks true 110 [] ∷ [])
        (acquire_async redis "s-1" true 100 [] empty).1)).2
    ≢ ok tt
acquire_async-excludes_example =
    acquire_async-excludes redis "s-1" true true 100 129 [] [] (asks true 110 [] ∷ []) empty
      acquires (omega arith, tt) (omega arith)

abbrev streams : Table String Stream
streams = keyed_by_text Stream

abbrev stream : Stream
stream = record {
  stream_id = "s-1";
  recipient = "GWORKER";
  unclaimed = "40.00";
  status = active;
  terminated_at = none;
  terminated_by = none;
  termination_reason = none;
  locked_at = none;
  locked_by = none;
  lock_reason = none;
}

only_stream : lookup String str_eq eq_iff Stream [] "s-1" ≡ none
unfolding lookup
only_stream = refl

abbrev table : streams.State
table = (("s-1", stream) ∷ [], (only_stream, tt))

found : streams.find_unique table "s-1" ≡ some stream
unfolding lookup
found = refl

abbrev unsigned_only : String → Option String
unsigned_only xdr = none

abbrev outcome : TerminateStreamResult
outcome =
    terminate_result active "GADMIN" none 50 "s-1" none (terminated_row "GADMIN" none 50 stream)

ends_first :
    (terminate streams unsigned_only "s-1" "GADMIN" none none 50 (table, [])).1 ≡ ok outcome
unfolding terminate terminate_read same_status lookup
ends_first = refl

terminate_once_example :
    let db' = (terminate streams unsigned_only "s-1" "GADMIN" none none 50 (table, [])).0 in
    terminate streams unsigned_only "s-1" "GOTHER" none none 60 db'
    ≡ (db', throw (not_terminable terminated))
terminate_once_example =
    terminate_once streams unsigned_only "s-1" "GADMIN" "GOTHER" none none none none 50 60
      (table, []) outcome ends_first

terminate_race_example :
    let (db₁, first) =
      terminate_read streams unsigned_only "s-1" "GADMIN" none none 50 (some stream) (table, []) in
    let (db₂, second) =
      terminate_read streams unsigned_only "s-1" "GOTHER" none none 51 (some stream) db₁ in
    IsToldTo streams unsigned_only "s-1" "GADMIN" 50 stream first
    × IsToldTo streams unsigned_only "s-1" "GOTHER" 51 stream second
    × IsTerminatedBy streams unsigned_only "s-1" "GOTHER" none 51 stream
        (streams.find_unique db₂.0 "s-1")
    × (db₂.1
        ≡ ([] ++ audit stream_terminate "GADMIN" "s-1" none ∷ [])
          ++ audit stream_terminate "GOTHER" "s-1" none ∷ [])
    × ((j : String) → j ≢ "s-1" → streams.find_unique db₂.0 j ≡ streams.find_unique table j)
terminate_race_example =
    terminate_race streams unsigned_only "s-1" "GADMIN" "GOTHER" none none 50 51 stream table []
      found refl

-- An operation that fails twice and then gives 7, at 30 milliseconds an attempt.
abbrev flaky : (attempt now : ℕ) → ℕ × Outcome Bool ℕ
flaky attempt now = (now + 30, if ltb attempt 2 then throw true else ok 7)

-- A timer that wakes three milliseconds late.
abbrev timer : (attempt started delay : ℕ) → ℕ
timer attempt started delay = started + delay + 3

abbrev options : RetryOptions Bool
options = record {
  max_retries = 3;
  base_delay_ms = 200;
  cap_ms = 10_000;
  budget_ms = 30_000;
  should_retry = λ e. e;
  backoff_ms = some (100 ∷ 400 ∷ []);
}

retry_async-IsEnded_example :
    (r : Run Bool ℕ) × (retry_async flaky (λ attempt window. 0) timer options 1_000 ≡ some r)
    × IsEnded flaky (λ attempt window. 0) timer options 1_000 r
retry_async-IsEnded_example = retry_async-IsEnded flaky (λ attempt window. 0) timer options 1_000

takes_30 : (attempt now : ℕ) → (now ≤ (flaky attempt now).0) × ((flaky attempt now).0 ≤ now + 30)
takes_30 attempt now = omega arith

late_by_3 :
    (attempt started delay : ℕ)
    → (started ≤ timer attempt started delay) × (timer attempt started delay ≤ started + delay + 3)
late_by_3 attempt started delay = omega arith

retry_async-ended_at_example :
    (r : Run Bool ℕ) × (retry_async flaky (λ attempt window. 0) timer options 1_000 ≡ some r)
    × (r.ended_at ≤ 31_033)
retry_async-ended_at_example =
    retry_async-ended_at flaky (λ attempt window. 0) timer options 1_000 3 30 takes_30 late_by_3

-- A cursor that is as long as its identifier.
abbrev mark : Char
mark = char_at "x" 0

abbrev tally : ℕ → String.String
tally zero = String.◌∷◌ mark ""
tally (suc n) = String.◌∷◌ mark (tally n)

abbrev tallied : String.String → ℕ
tallied String.[] = 0
tallied (String.◌∷◌ c s) = suc (tallied s)

tallied-tally : (n : ℕ) → tallied (tally n) ≡ suc n
tallied-tally zero = refl
tallied-tally (suc n) = ap suc (tallied-tally n)

tally_nonempty : (n : ℕ) → str_eq (tally n) "" ≡ false
tally_nonempty n = elim (Bool-cases (str_eq (tally n) "")) [
  | inl hit ↦
      let same : tallied (tally n) ≡ tallied "" = ap tallied ((eq_iff (tally n) "").0 hit) in
      absurd (omega (arith, tallied-tally n, same))
  | inr miss ↦ miss
]

abbrev codec : Codec
codec = record {
  encode = tally;
  decode = λ s. some (tallied s - 1);
  decode-encode = λ n. ap (λ k. some (k - 1)) (tallied-tally n) ∙ ap some (omega arith);
  encode_nonempty = tally_nonempty;
}

two_fits : 1 ≤ normalize_cursor_limit (fraction 2 0)
unfolding normalize_cursor_limit
two_fits = omega arith

walk_complete_example :
    walk (λ n. n) codec (5 ∷ 3 ∷ 8 ∷ []) 4 (fraction 2 0) none ≡ some (5 ∷ 3 ∷ 8 ∷ [])
walk_complete_example =
    walk_complete (λ n. n) codec (5 ∷ 3 ∷ 8 ∷ []) (fraction 2 0) two_fits
      (
        (different 5 3 (omega arith), (different 5 8 (omega arith), tt)),
        ((different 3 8 (omega arith), tt), (tt, tt)),
      )
  where
    different : (a b : ℕ) → a ≢ b → b ≢ a
    different a b ne e = ne (sym e)
