-- ===== src/PayoutIntent/Reconcile.antt =====
-- The sweep over unresolved intents: it ends without an error, counts every intent once, and leaves
-- alone what the chain does not know.
use elite_work.Base.{
  ℕ, ◌+◌, ◌≡◌, ◌≢◌, inl, inr, refl, sym, ap, ◌∙◌, subst, String, true, false, none, arith, List, [],
  ◌∷◌,
}
use elite_work.Base.Tests.{Bool-cases, Option-cases}
use elite_work.Base.Lists.{length, All}
use elite_work.Base.Outcome.{Outcome, ok}
use elite_work.Base.Table.{Table}
use elite_work.PayoutIntent.{
  PayoutIntent, PayoutError, Counts, ChainStatus, success, chain_failed, chain_not_found,
  lacks_hash, hash_text, was_confirmed, was_failed, fail, confirm, row_or_throw, then_count,
  counted_failed, counted_confirmed, counted_pending, reconcile_one, reconcile_all, in_turn,
}
use elite_work.PayoutIntent.Once.{kept_at}

-- How many intents a sweep has put into one of its three classes.
abbrev pub classified : Counts → ℕ
classified c = c.confirmed + c.failed + c.pending

success≢not_found : success ≢ chain_not_found
success≢not_found h = cc

failed≢not_found : chain_failed ≢ chain_not_found
failed≢not_found h = cc

true≢false : true ≢ false
true≢false h = cc

module _ (intents : Table String PayoutIntent) (lookup : String → ChainStatus) (now : ℕ) where
  open intents use {State, find_unique, update, update_row}

  -- The chain cannot say what became of the intent.
  abbrev pub IsUnknown : PayoutIntent → Type 0
  IsUnknown i = (lacks_hash i.tx_hash ≡ false) × (lookup (hash_text i.tx_hash) ≡ chain_not_found)

  -- What a round does to the table: no row is lost, and only the intent's own row may change, which
  -- it does not where the chain does not know.
  abbrev Touches : PayoutIntent → State → State → Type 0
  Touches i s s' =
      ((j : String) → find_unique s j ≢ none → find_unique s' j ≢ none)
      × ((j : String) → (j ≡ i.idempotency_key → IsUnknown i) → find_unique s' j ≡ find_unique s j)

  written :
      (i : PayoutIntent) (f : PayoutIntent → PayoutIntent) (s : State) (g : Counts → Counts)
      (c : Counts)
      → find_unique s i.idempotency_key ≢ none
      → ¬ IsUnknown i
      → (s' : State) × (then_count intents
            (row_or_throw intents s (update i.idempotency_key f s))
            g
            c
          ≡ (s', ok (g c)))
        × Touches i s s'
  written i f s g c present known = elim (Option-cases (find_unique s i.idempotency_key)) [
    | inl gone ↦ absurd (present gone)
    | inr (r, found) ↦
        let (s', updated, row, others) = update_row i.idempotency_key f s r found in
        (
          s',
          ap (λ o. then_count intents (row_or_throw intents s o) g c) updated,
          (
            λ j. kept_at intents i.idempotency_key j s s' (f r) row others,
            λ j h. others j (λ same. known (h same)),
          ),
        )
  ]

  -- A round ends well, puts the intent into one class, and touches no other.
  abbrev Rounded : PayoutIntent → State → Counts → State × Outcome PayoutError Counts → Type 0
  Rounded i s c handled =
      (s' : State) × (c' : Counts) × (handled ≡ (s', ok c'))
      × (classified c' ≡ classified c + 1)
      × (c'.scanned ≡ c.scanned)
      × Touches i s s'

  failed_round :
      (i : PayoutIntent) (s : State) (c : Counts) (why : String)
      → find_unique s i.idempotency_key ≢ none
      → ¬ IsUnknown i
      → Rounded i s c (then_count intents (fail intents i.idempotency_key why s) counted_failed c)
  unfolding fail
  failed_round i s c why present known =
      let (s', runs, touched) = written i (was_failed why) s counted_failed c present known in
      (s', counted_failed c, runs, omega arith, refl, touched)

  confirmed_round :
      (i : PayoutIntent) (s : State) (c : Counts)
      → find_unique s i.idempotency_key ≢ none
      → ¬ IsUnknown i
      → Rounded i s c
          (then_count intents (confirm intents i.idempotency_key none now s) counted_confirmed c)
  unfolding confirm
  confirmed_round i s c present known =
      let (s', runs, touched) =
        written i (was_confirmed none now) s counted_confirmed c present known in
      (s', counted_confirmed c, runs, omega arith, refl, touched)

  sent_round :
      (i : PayoutIntent) (s : State) (c : Counts) (o : ChainStatus)
      → find_unique s i.idempotency_key ≢ none
      → lacks_hash i.tx_hash ≡ false
      → lookup (hash_text i.tx_hash) ≡ o
      → Rounded i s c (reconcile_one intents lookup now i s c)
  unfolding reconcile_one
  sent_round i s c success present sent e =
      subst (Rounded i s c) (sym (rw (sent, e) refl))
        (confirmed_round i s c present (λ u. success≢not_found (sym e ∙ u.1)))
  sent_round i s c chain_failed present sent e = subst (Rounded i s c) (sym (rw (sent, e) refl)) (
      failed_round i s c "Reconciled: transaction failed on-chain" present
        (λ u. failed≢not_found (sym e ∙ u.1)))
  sent_round i s c chain_not_found present sent e =
      (s, counted_pending c, rw (sent, e) refl, omega arith, refl, ((λ j h. h), λ j h. refl))

  round :
      (i : PayoutIntent) (s : State) (c : Counts)
      → find_unique s i.idempotency_key ≢ none
      → Rounded i s c (reconcile_one intents lookup now i s c)
  unfolding reconcile_one
  round i s c present = elim (Bool-cases (lacks_hash i.tx_hash)) [
    | inl lacks ↦ subst (Rounded i s c) (sym (rw lacks refl)) (
        failed_round i s c "Reconciled: no transaction was submitted" present
          (λ u. true≢false (sym lacks ∙ u.0)))
    | inr sent ↦ sent_round i s c (lookup (hash_text i.tx_hash)) present sent refl
  ]

  -- Every intent of the batch has its row.
  abbrev pub ArePresent : List PayoutIntent → State → Type 0
  ArePresent batch s = All (λ i. find_unique s i.idempotency_key ≢ none) batch

  -- Of the batch only intents that the chain does not know have the key.
  abbrev pub IsLeftAlone : List PayoutIntent → String → Type 0
  IsLeftAlone batch j = All (λ i. j ≡ i.idempotency_key → IsUnknown i) batch

  present_after :
      (batch : List PayoutIntent) (s s' : State)
      → ((j : String) → find_unique s j ≢ none → find_unique s' j ≢ none)
      → ArePresent batch s
      → ArePresent batch s'
  present_after [] s s' keeps h = tt
  present_after (i ∷ batch) s s' keeps h =
      (keeps i.idempotency_key h.0, present_after batch s s' keeps h.1)

  -- A sweep over a batch whose intents all have their rows ends without an error. It scans each
  -- intent once and puts it into one class, and a key under which the batch has only intents that
  -- the chain does not know keeps its row.
  pub reconcile_all-accounts :
      (batch : List PayoutIntent) (s : State) (c : Counts)
      → ArePresent batch s
      → (s' : State) × (c' : Counts) × (reconcile_all intents lookup now batch s c ≡ (s', ok c'))
        × (c'.scanned ≡ c.scanned + length batch)
        × (classified c' ≡ classified c + length batch)
        × ((j : String) → IsLeftAlone batch j → find_unique s' j ≡ find_unique s j)
  unfolding reconcile_all
  reconcile_all-accounts [] s c present = (s, c, refl, omega arith, omega arith, λ j h. refl)
  reconcile_all-accounts (i ∷ batch) s c present =
      let (s₁, c₁, runs₁, classed₁, scanned₁, (keeps₁, alone₁)) = round i s c present.0 in
      let (s₂, c₂, runs₂, scanned₂, classed₂, alone₂) =
        reconcile_all-accounts batch s₁ (record c₁ { scanned = c₁.scanned + 1 })
          (present_after batch s s₁ keeps₁ present.1) in
      (
        s₂,
        c₂,
        ap (in_turn intents (reconcile_all intents lookup now batch)) runs₁ ∙ runs₂,
        omega (arith, scanned₁, scanned₂),
        omega (arith, classed₁, classed₂),
        λ j h. alone₂ j h.1 ∙ alone₁ j h.0,
      )
