-- ===== src/Base/Redis.antt =====
-- What the services use of Redis: values under keys that expire, with time in whole seconds. Redis
-- is not part of the repository, so it is a parameter, with the documented behaviour of its commands
-- as laws. A key is typed by its prefix in place of a text: no prefix of the program begins another.
-- A value is a text, or the decimal text of a number, which is kept as the number.
pub mod Timed
use elite_work.Base.{ℕ, suc, ◌+◌, ◌≤◌, ◌≡◌, ◌≢◌, String, Bool, true, false, Option, none, some}
use elite_work.Base.Tests.{ltb, if◌then◌else◌}

pub data Value : Type 0 where
  text_value : String → Value
  number_value : ℕ → Value

-- `parseInt(raw ?? "0", 10)`, and 0 where it gives NaN
abbrev pub number_or_zero : Option Value → ℕ
number_or_zero none = 0
number_or_zero (some (text_value s)) = 0
number_or_zero (some (number_value n)) = n

pub record Redis (Key : Type 0) : Type 1 where
  pub State : Type 0
  -- `GET`
  pub get : State → (now : ℕ) → Key → Option Value
  -- `SET key value EX ttl`
  pub set_ex : Key → Value → (ttl now : ℕ) → State → State
  -- `SET key value EX ttl NX`, and whether it answers `OK`
  pub set_nx_ex : Key → Value → (ttl now : ℕ) → State → State × Bool
  -- `DEL`
  pub del : Key → State → State
  -- `INCR`
  pub incr : Key → (now : ℕ) → State → State × ℕ
  pub get-set_ex :
      (k : Key) (v : Value) (ttl now t : ℕ) (s : State)
      → get (set_ex k v ttl now s) t k ≡ (if ltb t (now + ttl) then some v else none)
  pub get-set_ex_other :
      (k j : Key) (v : Value) (ttl now t : ℕ) (s : State)
      → j ≢ k
      → get (set_ex k v ttl now s) t j ≡ get s t j
  pub set_nx_ex_free :
      (k : Key) (v : Value) (ttl now : ℕ) (s : State)
      → get s now k ≡ none
      → set_nx_ex k v ttl now s ≡ (set_ex k v ttl now s, true)
  pub set_nx_ex_taken :
      (k : Key) (v w : Value) (ttl now : ℕ) (s : State)
      → get s now k ≡ some w
      → set_nx_ex k v ttl now s ≡ (s, false)
  pub get-del : (k : Key) (t : ℕ) (s : State) → get (del k s) t k ≡ none
  pub get-del_other : (k j : Key) (t : ℕ) (s : State) → j ≢ k → get (del k s) t j ≡ get s t j
  pub incr_absent :
      (k : Key) (now : ℕ) (s : State)
      → get s now k ≡ none
      → ((incr k now s).1 ≡ 1) × (get (incr k now s).0 now k ≡ some (number_value 1))
  pub incr_number :
      (k : Key) (now n : ℕ) (s : State)
      → get s now k ≡ some (number_value n)
      → ((incr k now s).1 ≡ suc n) × (get (incr k now s).0 now k ≡ some (number_value (suc n)))
  pub get-incr_other :
      (k j : Key) (now t : ℕ) (s : State) → j ≢ k → get (incr k now s).0 t j ≡ get s t j
