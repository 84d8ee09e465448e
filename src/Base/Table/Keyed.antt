-- ===== src/Base/Table/Keyed.antt =====
-- A table that behaves as required: an association list with each key once.
use text.Mathlib.Text.{◌==◌ as str_eq}
use text.Mathlib.TextEquality.{eq_iff}
use elite_work.Base.{
  ℕ, ◌+◌, ◌<◌, ◌≡◌, ◌≢◌, ◌↔◌, refl, sym, ap, ◌∙◌, Bool, true, false, Option, none, some, List, [],
  ◌∷◌, String, arith,
}
use elite_work.Base.Tests.{if◌then◌else◌}
use elite_work.Base.Table.{Table, changed, upserted}

module _ (Key : Type 0) (same : Key → Key → Bool)
    (same_iff : (j k : Key) → (same j k ≡ true) ↔ (j ≡ k)) (Row : Type 0) where
  abbrev pub Rows : Type 0
  Rows = List (Key × Row)

  unfoldable pub lookup : Rows → Key → Option Row
  lookup [] k = none
  lookup ((j, r) ∷ rows) k = if same j k then some r else lookup rows k

  abbrev pub Unique : Rows → Type 0
  Unique [] = Unit
  Unique ((j, r) ∷ rows) = (lookup rows j ≡ none) × Unique rows

  unfoldable pub change_all : (Row → Bool) → (Row → Row) → Rows → Rows
  change_all p f [] = []
  change_all p f ((j, r) ∷ rows) = (j, if p r then f r else r) ∷ change_all p f rows

  unfoldable pub matching : (Row → Bool) → Rows → ℕ
  matching p [] = 0
  matching p ((j, r) ∷ rows) = (if p r then 1 else 0) + matching p rows

  unfoldable pub put : Key → Row → Rows → Rows
  put k v [] = (k, v) ∷ []
  put k v ((j, r) ∷ rows) = if same j k then (j, v) ∷ rows else (j, r) ∷ put k v rows

  pub lookup-change_all :
      (p : Row → Bool) (f : Row → Row) (rows : Rows) (k : Key)
      → lookup (change_all p f rows) k ≡ changed p f (lookup rows k)
  unfolding lookup change_all
  lookup-change_all p f [] k = refl
  lookup-change_all p f ((j, r) ∷ rows) k = ground (arith, lookup-change_all p f rows k)

  pub change_all-Unique :
      (p : Row → Bool) (f : Row → Row) (rows : Rows) → Unique rows → Unique (change_all p f rows)
  unfolding change_all
  change_all-Unique p f [] u = tt
  change_all-Unique p f ((j, r) ∷ rows) u =
      (lookup-change_all p f rows j ∙ ap (changed p f) u.0, change_all-Unique p f rows u.1)

  pub matching-some :
      (p : Row → Bool) (rows : Rows) (k : Key) (r : Row)
      → lookup rows k ≡ some r
      → p r ≡ true
      → 0 < matching p rows
  unfolding lookup matching
  matching-some p [] k r h t = cc
  matching-some p ((j, x) ∷ rows) k r h t = ground (arith, matching-some p rows k r)

  pub lookup-put : (k : Key) (v : Row) (rows : Rows) → lookup (put k v rows) k ≡ some v
  unfolding lookup put
  lookup-put k v [] = rw ((same_iff k k).1 refl) refl
  lookup-put k v ((j, r) ∷ rows) = ground (arith, lookup-put k v rows, same_iff j k)

  pub lookup-put_ne :
      (k j : Key) (v : Row) (rows : Rows) → j ≢ k → lookup (put k v rows) j ≡ lookup rows j
  unfolding lookup put
  lookup-put_ne k j v [] h = ground (arith, same_iff k j)
  lookup-put_ne k j v ((i, r) ∷ rows) h =
      ground (arith, lookup-put_ne k j v rows h, same_iff i k, same_iff i j)

  pub put-Unique : (k : Key) (v : Row) (rows : Rows) → Unique rows → Unique (put k v rows)
  unfolding lookup put
  put-Unique k v [] u = (ground arith, tt)
  put-Unique k v ((j, r) ∷ rows) u =
      ground (arith, put-Unique k v rows u.1, lookup-put_ne k j v rows, same_iff j k)

  -- A row of a list with unique keys is found by its key.
  pub matching_none :
      (p : Row → Bool) (rows : Rows)
      → Unique rows
      → ((k : Key) (r : Row) → lookup rows k ≡ some r → p r ≡ false)
      → matching p rows ≡ 0
  unfolding lookup matching
  matching_none p [] u h = refl
  matching_none p ((j, r) ∷ rows) u h =
      let later : matching p rows ≡ 0 =
        matching_none p rows u.1 (λ k x e. h k x (later_row k x e)) in
      let first : p r ≡ false = h j r (rw ((same_iff j j).1 refl) refl) in
      ground (arith, later, first)
    where
      later_row : (k : Key) (x : Row) → lookup rows k ≡ some x → lookup ((j, r) ∷ rows) k ≡ some x
      later_row k x e = ground (arith, same_iff j k, u.0)

  -- The new row and table of an update, from the row that is there.
  abbrev pub updated :
      Key
      → (Row → Row)
      → (s : (rows : Rows) × Unique rows) → Option Row
      → Option (Row × ((rows : Rows) × Unique rows))
  updated k f s none = none
  updated k f s (some r) = some (f r, (put k (f r) s.0, put-Unique k (f r) s.0 s.1))

  abbrev pub created :
      Key
      → Row
      → (s : (rows : Rows) × Unique rows) → Option Row
      → Option ((rows : Rows) × Unique rows)
  created k r s none = some (put k r s.0, put-Unique k r s.0 s.1)
  created k r s (some old) = none

  abbrev pub rows_of : Option ((rows : Rows) × Unique rows) → Rows → Rows
  rows_of none rows = rows
  rows_of (some s) rows = s.0

  pub upsert_lem :
      (k : Key) (v : Row) (s s' : (rows : Rows) × Unique rows)
      → Path
          (Option ((rows : Rows) × Unique rows))
          (some (put k v s.0, put-Unique k v s.0 s.1))
          (some s')
      → (lookup s'.0 k ≡ some v) × ((j : Key) → j ≢ k → lookup s'.0 j ≡ lookup s.0 j)
  upsert_lem k v s s' e =
      let same : Path Rows (put k v s.0) s'.0 = ap (λ o. rows_of o s.0) e in
      (
        ap (λ rows. lookup rows k) (sym same) ∙ lookup-put k v s.0,
        λ j ne. ap (λ rows. lookup rows j) (sym same) ∙ lookup-put_ne k j v s.0 ne,
      )

  abbrev pub keyed : Table Key Row
  keyed = record {
    State = (rows : Rows) × Unique rows;
    find_unique = λ s k. lookup s.0 k;
    update_many = λ p f s. ((change_all p f s.0, change_all-Unique p f s.0 s.1), matching p s.0);
    update = λ k f s. updated k f s (lookup s.0 k);
    create = λ k r s. created k r s (lookup s.0 k);
    upsert = λ k f new s. some (
      put k (upserted f new (lookup s.0 k)) s.0,
      put-Unique k (upserted f new (lookup s.0 k)) s.0 s.1,
    );
    find-update_many = λ p f s k. lookup-change_all p f s.0 k;
    count_some = λ p f s k r h t. matching-some p s.0 k r h t;
    count_none = λ p f s h. matching_none p s.0 s.1 h;
    update_absent = λ k f s h. ap (updated k f s) h;
    update_row = λ k f s r h. (
      (put k (f r) s.0, put-Unique k (f r) s.0 s.1),
      ap (updated k f s) h,
      lookup-put k (f r) s.0,
      λ j ne. lookup-put_ne k j (f r) s.0 ne,
    );
    create_taken = λ k r old s h. ap (created k r s) h;
    create_row = λ k r s h. (
      (put k r s.0, put-Unique k r s.0 s.1),
      ap (created k r s) h,
      lookup-put k r s.0,
      λ j ne. lookup-put_ne k j r s.0 ne,
    );
    upsert_present = λ k f new r s h. (_, refl);
    upsert_row = λ k f new s s' e. upsert_lem k (upserted f new (lookup s.0 k)) s s' e;
  }

abbrev pub keyed_by_text : (Row : Type 0) → Table String Row
keyed_by_text Row = keyed String str_eq eq_iff Row
