-- ===== src/ClawbackLock.antt =====
-- backend/src/services/streamClawback.service.ts: the lock around the clawback of a stream. A pod
-- keeps the streams that it holds in memory; Redis, which the pods share, is a parameter. Whether
-- Redis is ready, or answers, is an argument. Logs are left out.
pub mod Exclusion
use text.Mathlib.Text.{◌==◌ as str_eq}
use elite_work.Base.{
  ℕ, ◌≡◌, String, Bool, true, false, not, ◌||◌, Option, none, some, List, [], ◌∷◌,
}
use elite_work.Base.Tests.{if◌then◌else◌, is_none}
use elite_work.Base.Lists.{any}
use elite_work.Base.Outcome.{Outcome, ok, throw}
use elite_work.Base.Redis.{Redis, Value, text_value}

-- `clawback:lock:<streamId>`
pub data Key : Type 0 where
  clawback_lock : String → Key

abbrev pub redis_clawback_ttl_seconds : ℕ
redis_clawback_ttl_seconds = 30

-- The `activeClawbacks` of a pod, with `has`, `add` and `delete` of a `Set`.
abbrev pub Pod : Type 0
Pod = List String

unfoldable pub has : String → Pod → Bool
has x pod = any (str_eq x) pod

unfoldable pub add : String → Pod → Pod
unfolding has
add x pod = if has x pod then pod else x ∷ pod

unfoldable pub delete : String → Pod → Pod
delete x [] = []
delete x (y ∷ pod) = let rest = delete x pod in if str_eq x y then rest else y ∷ rest

pub data ClawbackError : Type 0 where
  in_progress unavailable : ClawbackError

module _ (redis : Redis Key) where
  open redis use {State, get, set_nx_ex, del}

  -- What the pod remembers, Redis, and the outcome.
  abbrev pub Handled : Type 0
  Handled = Pod × State × Outcome ClawbackError Unit

  -- `acquire`: the write to Redis runs in the background, and its answer is only logged.
  unfoldable pub acquire : (stream_id : String) (ready : Bool) (now : ℕ) → Pod → State → Handled
  unfolding has add
  acquire stream_id ready now pod s =
      let (s', answered) =
        set_nx_ex (clawback_lock stream_id) (text_value "1") redis_clawback_ttl_seconds now s in
      if has stream_id pod
      then (pod, s, throw in_progress)
      else if not ready
      then (pod, s, throw unavailable)
      else (add stream_id pod, s', ok tt)

  unfoldable pub acquire_async :
      (stream_id : String) (answers : Bool) (now : ℕ) → Pod → State → Handled
  unfolding has add
  acquire_async stream_id answers now pod s =
      let (s', set) =
        set_nx_ex (clawback_lock stream_id) (text_value "1") redis_clawback_ttl_seconds now s in
      if has stream_id pod
      then (pod, s, throw in_progress)
      else if not answers
      then (pod, s, throw unavailable)
      else if not set
      then (pod, s', throw in_progress)
      else (add stream_id pod, s', ok tt)

  -- `release` and `releaseAsync`: where Redis does not answer, its entry stays.
  unfoldable pub release : (stream_id : String) (answers : Bool) → Pod → State → Pod × State
  unfolding delete
  release stream_id answers pod s =
      (delete stream_id pod, if answers then del (clawback_lock stream_id) s else s)

  unfoldable pub is_locked : (stream_id : String) → Pod → Bool
  unfolding has
  is_locked stream_id pod = has stream_id pod

  unfoldable pub is_locked_async :
      (stream_id : String) (answers : Bool) (now : ℕ) → Pod → State → Bool
  unfolding has
  is_locked_async stream_id answers now pod s =
      has stream_id pod
      || (if answers then not (is_none (get s now (clawback_lock stream_id))) else true)
