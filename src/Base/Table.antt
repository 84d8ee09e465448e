-- ===== src/Base/Table.antt =====
-- What the services use of a Prisma delegate: a table whose rows are found by a unique key. The
-- database is not part of the repository, so it is a parameter, with its documented behaviour as
-- laws. `none` stands for the errors P2025 (no such row) and P2002 (unique constraint).
pub mod Keyed
use elite_work.Base.{ℕ, zero, ◌<◌, ◌≡◌, ◌≢◌, Bool, true, false, Option, none, some}
use elite_work.Base.Tests.{if◌then◌else◌}

abbrev pub changed {ℓ} : {Row : Type ℓ} → (Row → Bool) → (Row → Row) → Option Row → Option Row
changed p f none = none
changed p f (some r) = if p r then some (f r) else some r

-- What `upsert` leaves under its key.
abbrev pub upserted {ℓ} : {Row : Type ℓ} → (Row → Row) → Row → Option Row → Row
upserted f new none = new
upserted f new (some r) = f r

pub record Table (Key Row : Type 0) : Type 1 where
  pub State : Type 0
  -- `findUnique({ where })`
  pub find_unique : State → Key → Option Row
  -- `updateMany({ where, data })`, and its `count`
  pub update_many : (Row → Bool) → (Row → Row) → State → State × ℕ
  -- `update({ where, data })`, which returns the new row
  pub update : Key → (Row → Row) → State → Option (Row × State)
  -- `create({ data })`
  pub create : Key → Row → State → Option State
  -- `upsert({ where, update, create })`
  pub upsert : Key → (Row → Row) → Row → State → Option State
  pub find-update_many :
      (p : Row → Bool) (f : Row → Row) (s : State) (k : Key)
      → find_unique (update_many p f s).0 k ≡ changed p f (find_unique s k)
  pub count_some :
      (p : Row → Bool) (f : Row → Row) (s : State) (k : Key) (r : Row)
      → find_unique s k ≡ some r
      → p r ≡ true
      → 0 < (update_many p f s).1
  pub count_none :
      (p : Row → Bool) (f : Row → Row) (s : State)
      → ((k : Key) (r : Row) → find_unique s k ≡ some r → p r ≡ false)
      → (update_many p f s).1 ≡ 0
  pub update_absent :
      (k : Key) (f : Row → Row) (s : State) → find_unique s k ≡ none → update k f s ≡ none
  pub update_row :
      (k : Key) (f : Row → Row) (s : State) (r : Row)
      → find_unique s k ≡ some r
      → (s' : State) × (update k f s ≡ some (f r, s'))
        × (find_unique s' k ≡ some (f r))
        × ((j : Key) → j ≢ k → find_unique s' j ≡ find_unique s j)
  pub create_taken :
      (k : Key) (r old : Row) (s : State) → find_unique s k ≡ some old → create k r s ≡ none
  pub create_row :
      (k : Key) (r : Row) (s : State)
      → find_unique s k ≡ none
      → (s' : State) × (create k r s ≡ some s')
        × (find_unique s' k ≡ some r)
        × ((j : Key) → j ≢ k → find_unique s' j ≡ find_unique s j)
  pub upsert_present :
      (k : Key) (f : Row → Row) (new r : Row) (s : State)
      → find_unique s k ≡ some r
      → (s' : State) × (upsert k f new s ≡ some s')
  pub upsert_row :
      (k : Key) (f : Row → Row) (new : Row) (s s' : State)
      → upsert k f new s ≡ some s'
      → (find_unique s' k ≡ some (upserted f new (find_unique s k)))
        × ((j : Key) → j ≢ k → find_unique s' j ≡ find_unique s j)
