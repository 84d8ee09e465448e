-- ===== src/Tests/Requests.antt =====
-- Requests with an idempotency key, with a Redis of concrete entries.
use text.Mathlib.Text.{◌==◌ as str_eq}
use text.Mathlib.TextEquality.{eq_iff}
use elite_work.Base.{
  ◌≡◌, ◌≢◌, ◌↔◌, refl, String, Bool, true, false, ◌&&◌, none, some, [], ◌∷◌, arith, List, sym, ap,
}
use elite_work.Base.Redis.{Redis}
use elite_work.Base.Redis.Timed.{timed}
use elite_work.Idempotency.{
  Scope, Key, cache_key, lock_key, Response, CachedResponse, Json, Request, executes, body_conflict,
  begin, finish, acquire_script,
}
use elite_work.Idempotency.Once.{executes_once, begins}
use elite_work.Idempotency.Replay.{Action, acts, finish-begin}

abbrev same_scope : Scope → Scope → Bool
same_scope a b = str_eq a.method b.method && (str_eq a.path b.path && str_eq a.key b.key)

same_scope_iff : (a b : Scope) → (same_scope a b ≡ true) ↔ (a ≡ b)
same_scope_iff a b =
    ground (arith, eq_iff a.method b.method, eq_iff a.path b.path, eq_iff a.key b.key)

abbrev same_key : Key → Key → Bool
same_key (cache_key a) (cache_key b) = same_scope a b
same_key (lock_key a) (lock_key b) = same_scope a b
same_key _ _ = false

same_key_iff : (j k : Key) → (same_key j k ≡ true) ↔ (j ≡ k)
same_key_iff (cache_key a) (cache_key b) = ground (arith, same_scope_iff a b)
same_key_iff (lock_key a) (lock_key b) = ground (arith, same_scope_iff a b)
same_key_iff _ _ = ground arith

abbrev redis : Redis Key
redis = timed Key same_key same_key_iff

abbrev empty : redis.State
empty = λ k. none

abbrev response : Response
response = record { status = 201; body = "made"; headers = [] }

abbrev entry : CachedResponse
entry = record { response = response; request_body_hash = some "b" }

-- Bodies stand for their hashes, and the one entry is all that is read.
abbrev json : Json
json = record { stringify = λ c. "entry"; parse = λ t. entry }

abbrev hash : String → String
hash body = body

abbrev request : Request
request = record { method = "POST"; path = "/trades"; idempotency_key = some "k"; body = "b" }

abbrev other : Request
other = record { method = "POST"; path = "/trades"; idempotency_key = some "k"; body = "c" }

abbrev scope : Scope
scope = record { method = "POST"; path = "/trades"; key = "k" }

abbrev elsewhere : Scope
elsewhere = record { method = "POST"; path = "/streams"; key = "k" }

goes_on : (begin redis json hash request 100 empty).1 ≡ executes scope
unfolding begin acquire_script
goes_on = refl

executes_once_example :
    (begin redis json hash other 120 (
      begins redis json hash scope
        ((other, 110) ∷ [])
        (begin redis json hash request 100 empty).0)).1
    ≢ executes scope
executes_once_example =
    executes_once redis json hash scope request other 100 120 ((other, 110) ∷ []) empty refl refl
      goes_on ((refl, ground arith), tt) (ground arith)

-- While the response is cached, the key comes again, and a request to another path ends.
abbrev traffic : List (Action redis json hash)
traffic = Action.begins other 200 ∷ Action.ends elsewhere "d" response 300 ∷ []

other_scope : scope ≢ elsewhere
other_scope same = differ (sym ((eq_iff "/trades" "/streams").1 (ap (λ x. x.path) same)))
  where
    differ : Path Bool true false → ⊥
    differ h = cc

finish-begin_example :
    let s' = acts redis json hash traffic (finish redis json hash scope "b" response 110 empty) in
    begin redis json hash other 500 s' ≡ (s', body_conflict)
finish-begin_example =
    finish-begin redis json hash scope "b" response 110 500 traffic other empty refl (ground arith)
      (ground arith) (ground arith) (tt, (other_scope, tt)) refl
