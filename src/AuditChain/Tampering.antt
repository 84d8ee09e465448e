-- ===== src/AuditChain/Tampering.antt =====
-- Chains that were only appended to, and chains with a row that was changed.
use text.Mathlib.Text.{◌==◌ as str_eq}
use text.Mathlib.TextEquality.{eq_iff}
use elite_work.Base.{
  ℕ, ◌+◌, ◌≡◌, ◌≢◌, inl, inr, refl, sym, ap, ◌∙◌, subst, String, true, false, some, List, [], ◌∷◌,
  ◌++◌, arith,
}
use elite_work.Base.Tests.{is_none, Bool-cases}
use elite_work.Base.Lists.{length}
use elite_work.AuditChain.{
  AuditChainEntryInput, AuditRow, Progress, start, last_hash, create_audit, verify_row, verify_rows,
  verify_chain,
}

module _ (hash_of : (prev_hash : String) → AuditChainEntryInput → String)
    (nonempty : (prev : String) (entry : AuditChainEntryInput)
      → str_eq (hash_of prev entry) "" ≡ false) where
  -- The tables that the middleware writes.
  abbrev pub written : List (ℕ × AuditChainEntryInput) → List AuditRow → List AuditRow
  written [] rows = rows
  written ((id, entry) ∷ more) rows = written more (create_audit hash_of id entry rows)

  -- Each row carries the hash of the one in front of it, and its own.
  abbrev IsChained : (prev : String) → List AuditRow → Type 0
  IsChained prev [] = Unit
  IsChained prev (r ∷ rows) =
      (r.prev_hash ≡ prev) × (r.hash ≡ hash_of prev r.entry) × IsChained r.hash rows

  abbrev end_of : (prev : String) → List AuditRow → String
  end_of prev [] = prev
  end_of prev (r ∷ rows) = end_of r.hash rows

  append-IsChained :
      (prev : String) (rows back : List AuditRow)
      → IsChained prev rows
      → IsChained (end_of prev rows) back
      → IsChained prev (rows ++ back)
  append-IsChained prev [] back h k = k
  append-IsChained prev (r ∷ rows) back (a, b, h) k = (a, b, append-IsChained r.hash rows back h k)

  last_hash-end_of : (rows : List AuditRow) → last_hash rows ≡ end_of "" rows
  last_hash-end_of [] = refl
  last_hash-end_of (r ∷ []) = refl
  last_hash-end_of (r ∷ x ∷ rows) = last_hash-end_of (x ∷ rows)

  create-IsChained :
      (id : ℕ) (entry : AuditChainEntryInput) (rows : List AuditRow)
      → IsChained "" rows
      → IsChained "" (create_audit hash_of id entry rows)
  unfolding create_audit
  create-IsChained id entry rows h =
      append-IsChained "" rows _ h
        (last_hash-end_of rows, ap (λ p. hash_of p entry) (last_hash-end_of rows), tt)

  written-IsChained :
      (more : List (ℕ × AuditChainEntryInput)) (rows : List AuditRow)
      → IsChained "" rows
      → IsChained "" (written more rows)
  written-IsChained [] rows h = h
  written-IsChained ((id, entry) ∷ more) rows h =
      written-IsChained more _ (create-IsChained id entry rows h)

  intact :
      (r : AuditRow) (p : Progress)
      → r.prev_hash ≡ p.expected_prev_hash
      → r.hash ≡ hash_of p.expected_prev_hash r.entry
      → verify_row hash_of r p ≡ record {
        expected_prev_hash = r.hash;
        entries_checked = p.entries_checked + 1;
        broken_at_id = p.broken_at_id;
        checkpoint = some r.hash;
      }
  unfolding verify_row
  intact r p a b =
      let full : str_eq r.hash "" ≡ false =
        ap (λ x. str_eq x "") b ∙ nonempty p.expected_prev_hash r.entry in
      rw
        (
          full,
          (eq_iff r.prev_hash p.expected_prev_hash).1 a,
          (eq_iff r.hash (hash_of p.expected_prev_hash r.entry)).1 b,
        )
        refl

  -- A chain adds nothing to what is broken, and counts its rows.
  chained-verify :
      (rows : List AuditRow) (p : Progress)
      → IsChained p.expected_prev_hash rows
      → let q = verify_rows hash_of rows p in
        (q.broken_at_id ≡ p.broken_at_id)
        × (q.entries_checked ≡ p.entries_checked + length rows)
        × (q.expected_prev_hash ≡ end_of p.expected_prev_hash rows)
  unfolding verify_rows
  chained-verify [] p h = (refl, omega arith, refl)
  chained-verify (r ∷ rows) p (a, b, h) =
      let same = intact r p a b in
      let (broken, checked, ends) =
        chained-verify rows (verify_row hash_of r p)
          (subst (λ (q : Progress). IsChained q.expected_prev_hash rows) (sym same) h) in
      (
        broken ∙ ap (λ q. q.broken_at_id) same,
        checked ∙ omega (arith, ap (λ (q : Progress). q.entries_checked) same),
        ends ∙ ap (λ (q : Progress). end_of q.expected_prev_hash rows) same,
      )

  chained-valid :
      (rows : List AuditRow)
      → IsChained "" rows
      → let result = verify_chain hash_of rows in
        (result.valid ≡ true) × (result.entries_checked ≡ length rows)
  unfolding verify_chain
  chained-valid rows h =
      let (broken, checked, ends) = chained-verify rows start h in
      (ap is_none broken, checked ∙ omega arith)

  -- A table that only the middleware wrote verifies, with each of its rows checked.
  written-verify :
      (entries : List (ℕ × AuditChainEntryInput))
      → let result = verify_chain hash_of (written entries []) in
        (result.valid ≡ true) × (result.entries_checked ≡ length (written entries []))
  written-verify entries = chained-valid (written entries []) (written-IsChained entries [] tt)

  IsChained-split :
      (prev : String) (front : List AuditRow) (r : AuditRow) (back : List AuditRow)
      → IsChained prev (front ++ r ∷ back)
      → IsChained prev front
        × (r.prev_hash ≡ end_of prev front)
        × (r.hash ≡ hash_of (end_of prev front) r.entry)
  IsChained-split prev [] r back (a, b, h) = (tt, a, b)
  IsChained-split prev (x ∷ front) r back (a, b, h) =
      let (chained, prev_hash, own) = IsChained-split x.hash front r back h in
      ((a, b, chained), prev_hash, own)

  front-IsChained :
      (prev : String) (front back : List AuditRow)
      → IsChained prev (front ++ back)
      → IsChained prev front
  front-IsChained prev [] back h = tt
  front-IsChained prev (x ∷ front) back (a, b, h) = (a, b, front-IsChained x.hash front back h)

  -- Rows that are cut off at the end of the table leave no trace: what is left verifies.
  truncated-verify :
      (entries : List (ℕ × AuditChainEntryInput)) (front back : List AuditRow)
      → written entries [] ≡ front ++ back
      → let result = verify_chain hash_of front in
        (result.valid ≡ true) × (result.entries_checked ≡ length front)
  truncated-verify entries front back cut =
      chained-valid front
        (front-IsChained "" front back (subst (IsChained "") cut (written-IsChained entries [] tt)))

  verify_rows-append :
      (front back : List AuditRow) (p : Progress)
      → verify_rows hash_of (front ++ back) p
        ≡ verify_rows hash_of back (verify_rows hash_of front p)
  unfolding verify_rows
  verify_rows-append [] back p = refl
  verify_rows-append (r ∷ front) back p = verify_rows-append front back (verify_row hash_of r p)

  abbrev IsBroken : Progress → Type 0
  IsBroken p = is_none p.broken_at_id ≡ false

  verify_row-IsBroken :
      (r : AuditRow) (p : Progress) → IsBroken p → IsBroken (verify_row hash_of r p)
  unfolding verify_row
  verify_row-IsBroken r p h = ground (arith, h)

  verify_rows-IsBroken :
      (rows : List AuditRow) (p : Progress) → IsBroken p → IsBroken (verify_rows hash_of rows p)
  unfolding verify_rows
  verify_rows-IsBroken [] p h = h
  verify_rows-IsBroken (r ∷ rows) p h =
      verify_rows-IsBroken rows (verify_row hash_of r p) (verify_row-IsBroken r p h)

  edited-IsBroken :
      (r : AuditRow) (p : Progress)
      → str_eq r.hash "" ≡ false
      → r.hash ≢ hash_of p.expected_prev_hash r.entry
      → IsBroken (verify_row hash_of r p)
  unfolding verify_row
  edited-IsBroken r p full differs =
      elim (Bool-cases (str_eq r.hash (hash_of p.expected_prev_hash r.entry))) [
        | inl hit ↦ absurd (differs ((eq_iff r.hash _).0 hit))
        | inr miss ↦ ground (arith, full, miss)
      ]

  -- A table that the middleware wrote, and in which the fields of one row were changed to some with
  -- another hash, does not verify.
  pub edited-verify :
      (entries : List (ℕ × AuditChainEntryInput)) (front : List AuditRow) (r : AuditRow)
      (back : List AuditRow) (changed : AuditChainEntryInput)
      → written entries [] ≡ front ++ r ∷ back
      → hash_of r.prev_hash changed ≢ r.hash
      → (verify_chain hash_of (front ++ record r { entry = changed } ∷ back)).valid ≡ false
  unfolding verify_chain verify_rows
  edited-verify entries front r back changed whole different =
      let (chained, prev_hash, own) =
        IsChained-split "" front r back
          (subst (IsChained "") whole (written-IsChained entries [] tt)) in
      let (broken, checked, ends) = chained-verify front start chained in
      let full : str_eq r.hash "" ≡ false =
        ap (λ x. str_eq x "") own ∙ nonempty (end_of "" front) r.entry in
      let bad : IsBroken
          (verify_row hash_of (record r { entry = changed }) (verify_rows hash_of front start)) =
        edited-IsBroken (record r { entry = changed }) (verify_rows hash_of front start) full
          (λ same. different (ap (λ x. hash_of x changed) (prev_hash ∙ sym ends) ∙ sym same)) in
      ap (λ (q : Progress). is_none q.broken_at_id)
        (verify_rows-append front (record r { entry = changed } ∷ back) start)
      ∙ verify_rows-IsBroken back _ bad
