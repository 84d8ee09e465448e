-- ===== src/Idempotency.antt =====
-- backend/src/middleware/idempotency.ts: requests that carry an idempotency key. Redis is a parameter,
-- and so are SHA-256 of a body and the JSON of a response. The two scripts run in Redis as one step
-- each. A request begins (`begin`), and ends with its response (`finish`); in between come other
-- requests. A failure of Redis, which lets requests through without protection, is left out, and so
-- are logs and alerts.
pub mod Once
pub mod Replay
use text.Mathlib.Text.{◌==◌ as str_eq}
use elite_work.Base.{
  ℕ, ◌+◌, ◌*◌, ◌≡◌, String, Bool, true, false, not, ◌&&◌, Option, none, some, List, [], ◌∷◌,
}
use elite_work.Base.Tests.{ltb, leb, if◌then◌else◌}
use elite_work.Base.Lists.{any}
use elite_work.Base.Redis.{Redis, Value, text_value, number_value}

-- Stands for `METHOD:path:key`, with `idempotency:` or `idempotency:lock:` in front of it. No method
-- is `lock`, so a key of the cache is no key of a lock.
pub record Scope : Type 0 where
  pub method : String
  pub path : String
  pub key : String

pub data Key : Type 0 where
  cache_key lock_key : Scope → Key

abbrev pub idempotency_ttl : ℕ
idempotency_ttl = 60 * 60 * 24

abbrev pub idempotency_lock_ttl : ℕ
idempotency_lock_ttl = 30

pub record Response : Type 0 where
  pub status : ℕ
  pub body : String
  pub headers : List (String × String)

-- What is cached: the response and the hash of the body that it answers, where there is one.
pub record CachedResponse : Type 0 where
  pub response : Response
  pub request_body_hash : Option String

-- `JSON.stringify` and `JSON.parse`
pub record Json : Type 0 where
  pub stringify : CachedResponse → String
  pub parse : String → CachedResponse

pub record Request : Type 0 where
  pub method : String
  pub path : String
  pub idempotency_key : Option String
  pub body : String

-- The answer of the first script.
pub data Acquired : Type 0 where
  cached : Value → Acquired
  acquired busy : Acquired

-- What becomes of a request: it goes on without protection, it goes on as the one that holds the
-- lock, it is answered, or it waits for the one that holds the lock.
pub data Begun : Type 0 where
  passes : Begun
  executes waits : Scope → Begun
  replays : Response → Begun
  body_conflict : Begun

pub data Waited : Type 0 where
  replayed : Response → Waited
  in_progress : Waited

abbrev pub is_mutation : String → Bool
is_mutation method = any (str_eq method) ("POST" ∷ "PUT" ∷ "PATCH" ∷ "DELETE" ∷ [])

-- The scope of a request that the middleware looks at.
abbrev pub scope_of : Request → Option Scope
scope_of r = elim r.idempotency_key [
  | none ↦ none
  | some key ↦
      if str_eq key ""
      then none
      else if is_mutation r.method
      then some (record { method = r.method; path = r.path; key = key })
      else none
]

module _ (redis : Redis Key) (json : Json) (body_hash : String → String) where
  open redis use {State, get, set_ex, set_nx_ex, del}

  -- The first script, from the cached value and from what its `SET ... NX` would do.
  abbrev pub acquire_read : Option Value → State × Bool → State → State × Acquired
  acquire_read (some v) (s', set) s = (s, cached v)
  acquire_read none (s', set) s = if set then (s', acquired) else (s', busy)

  -- `IDEMPOTENCY_ACQUIRE_SCRIPT`
  unfoldable pub acquire_script : Scope → (now : ℕ) → State → State × Acquired
  acquire_script scope now s =
      acquire_read (get s now (cache_key scope))
        (set_nx_ex (lock_key scope) (text_value "1") idempotency_lock_ttl now s) s

  -- `IDEMPOTENCY_COMMIT_SCRIPT`
  unfoldable pub commit_script : Scope → String → (now : ℕ) → State → State
  commit_script scope response now s =
      del (lock_key scope) (set_ex (cache_key scope) (text_value response) idempotency_ttl now s)

  -- The text of a cached value; a number is not cached.
  abbrev pub parsed : Value → CachedResponse
  parsed v = elim v [ text_value t ↦ json.parse t | number_value n ↦ json.parse "" ]

  -- `requestBodyHash !== undefined && requestBodyHash !== bodyHash(req.body)`
  abbrev pub is_other_body : CachedResponse → (body : String) → Bool
  is_other_body c body = elim c.request_body_hash [
    | none ↦ false
    | some h ↦ not (str_eq h (body_hash body))
  ]

  abbrev pub answered : Scope → (body : String) → Acquired → Begun
  answered scope body (cached v) =
      if is_other_body (parsed v) body then body_conflict else replays (parsed v).response
  answered scope body acquired = executes scope
  answered scope body busy = waits scope

  abbrev pub begin_in : Option Scope → (body : String) (now : ℕ) → State → State × Begun
  begin_in none body now s = (s, passes)
  begin_in (some scope) body now s =
      let (s', a) = acquire_script scope now s in (s', answered scope body a)

  unfoldable pub begin : Request → (now : ℕ) → State → State × Begun
  unfolding acquire_script
  begin r now s = begin_in (scope_of r) r.body now s

  -- What a request that waits finds in its polls: each looks at the clock, sleeps, and then asks for
  -- the response at a second and a state of its own.
  unfoldable pub wait_for_cached_response :
      Scope → (deadline : ℕ) → List (ℕ × ℕ × State) → Option Value
  wait_for_cached_response scope deadline [] = none
  wait_for_cached_response scope deadline ((looked, asked, s) ∷ polls) =
      let later = wait_for_cached_response scope deadline polls in
      if leb deadline looked
      then none
      else elim (get s asked (cache_key scope)) [ none ↦ later | some v ↦ some v ]

  unfoldable pub waited : Scope → (deadline : ℕ) → List (ℕ × ℕ × State) → Waited
  unfolding wait_for_cached_response
  waited scope deadline polls = elim (wait_for_cached_response scope deadline polls) [
    | none ↦ in_progress
    | some v ↦ replayed (parsed v).response
  ]

  -- The end of the request that holds the lock: a response of success is cached, behind any other
  -- the lock is released.
  unfoldable pub finish : Scope → (body : String) → Response → (now : ℕ) → State → State
  unfolding commit_script
  finish scope body response now s =
      let entry =
        json.stringify
          (record { response = response; request_body_hash = some (body_hash body) }) in
      if leb 200 response.status && ltb response.status 300
      then commit_script scope entry now s
      else del (lock_key scope) s
