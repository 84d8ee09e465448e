-- ===== src/PayoutIntent/Once.antt =====
-- A payout is claimed at most once, whatever happens to its intent in between.
use text.Mathlib.Text.{◌==◌ as str_eq}
use text.Mathlib.TextEquality.{eq_iff}
use elite_work.Base.{
  ℕ, ◌≡◌, ◌≢◌, inl, inr, refl, sym, ap, ◌∙◌, String, true, false, Option, none, some, arith,
}
use elite_work.Base.Tests.{if◌then◌else◌, Bool-cases, Option-cases, get_or_else}
use elite_work.Base.Outcome.{Outcome, ok, throw}
use elite_work.Base.Table.{Table}
use elite_work.PayoutIntent.{
  PayoutIntent, PayoutIntentInput, PayoutIntentResult, PayoutError, duplicate_payout, is_terminal,
  claimed, attempted_again, was_submitted, was_confirmed, was_failed, claim, handle_existing,
  record_submission, confirm, fail, row_or_throw,
}

abbrev pub key_of : (derived : String) → PayoutIntentInput → String
key_of derived input = get_or_else input.idempotency_key derived

some≢none : {r : PayoutIntent} → some r ≢ none
some≢none h = cc

true≢false : true ≢ false
true≢false h = cc

module _ (intents : Table String PayoutIntent) where
  open intents use {
    State, find_unique, update, create, update_absent, update_row, create_taken, create_row,
  }

  -- What a claim of an existing intent answers.
  abbrev pub answer : PayoutIntent → Outcome PayoutError PayoutIntentResult
  answer r =
      if is_terminal r.status
      then throw (duplicate_payout (attempted_again r))
      else ok (record { intent = attempted_again r; duplicate = true })

  -- A claim under a free key creates the pending intent and is no duplicate; no other intent changes.
  pub claim-fresh :
      (derived : String) (input : PayoutIntentInput) (s : State)
      → let k = key_of derived input in
        let (s', outcome) = claim intents derived input s in
        find_unique s k ≡ none
        → (outcome ≡ ok (record { intent = claimed k input; duplicate = false }))
          × (find_unique s' k ≡ some (claimed k input))
          × ((j : String) → j ≢ k → find_unique s' j ≡ find_unique s j)
  unfolding claim
  claim-fresh derived input s free =
      let k = key_of derived input in
      let (s', made, row, others) = create_row k (claimed k input) s free in
      rw made (refl, row, others)

  -- A claim under a key that is taken counts the attempt on the intent and is a duplicate, or an
  -- error where the payout is settled; no other intent changes.
  pub claim-taken :
      (derived : String) (input : PayoutIntentInput) (s : State) (r : PayoutIntent)
      → let k = key_of derived input in
        let (s', outcome) = claim intents derived input s in
        find_unique s k ≡ some r
        → (outcome ≡ answer r)
          × (find_unique s' k ≡ some (attempted_again r))
          × ((j : String) → j ≢ k → find_unique s' j ≡ find_unique s j)
  unfolding claim handle_existing
  claim-taken derived input s r taken =
      let k = key_of derived input in
      let (s', updated, row, others) = update_row k attempted_again s r taken in
      let refused = create_taken k (claimed k input) r s taken in
      elim (Bool-cases (is_terminal r.status)) [
        | inl done ↦ rw (refused, updated, done) (refl, row, others)
        | inr open_still ↦ rw (refused, updated, open_still) (refl, row, others)
      ]

  -- Everything that writes intents.
  pub data Step (s : State) : State → Type 0 where
    claims :
        (derived : String) (input : PayoutIntentInput) → Step s (claim intents derived input s).0
    submits : (k h : String) (now : ℕ) → Step s (record_submission intents k h now s).0
    confirms : (k : String) (h : Option String) (now : ℕ) → Step s (confirm intents k h now s).0
    fails : (k reason : String) → Step s (fail intents k reason s).0

  pub data Reach (s : State) : State → Type 0 where
    here : Reach s s
    next : {t u : State} → Reach s t → Step t u → Reach s u

  pub kept_at :
      (k j : String) (s s' : State) (r : PayoutIntent)
      → find_unique s' k ≡ some r
      → ((i : String) → i ≢ k → find_unique s' i ≡ find_unique s i)
      → find_unique s j ≢ none
      → find_unique s' j ≢ none
  kept_at k j s s' r row others h e = elim (Bool-cases (str_eq j k)) [
    | inl hit ↦ some≢none (sym row ∙ sym (ap (find_unique s') ((eq_iff j k).0 hit)) ∙ e)
    | inr miss ↦ h (sym (others j (λ same. true≢false (sym ((eq_iff j k).1 same) ∙ miss))) ∙ e)
  ]

  -- An update leaves every intent in the table.
  update-keeps :
      (k j : String) (f : PayoutIntent → PayoutIntent) (s : State)
      → find_unique s j ≢ none
      → find_unique (row_or_throw intents s (update k f s)).0 j ≢ none
  update-keeps k j f s h = elim (Option-cases (find_unique s k)) [
    | inl gone ↦ rw (update_absent k f s gone) h
    | inr (r, found) ↦
        let (s', updated, row, others) = update_row k f s r found in
        rw updated (kept_at k j s s' (f r) row others h)
  ]

  Step-keeps :
      {s t : State} (j : String) → Step s t → find_unique s j ≢ none → find_unique t j ≢ none
  unfolding record_submission confirm fail
  Step-keeps {s} j (claims derived input) h =
      elim (Option-cases (find_unique s (key_of derived input))) [
        | inl free ↦
            let (outcome, row, others) = claim-fresh derived input s free in
            kept_at (key_of derived input) j s _ _ row others h
        | inr (r, taken) ↦
            let (outcome, row, others) = claim-taken derived input s r taken in
            kept_at (key_of derived input) j s _ _ row others h
      ]
  Step-keeps {s} j (submits k x now) h = update-keeps k j (was_submitted x now) s h
  Step-keeps {s} j (confirms k x now) h = update-keeps k j (was_confirmed x now) s h
  Step-keeps {s} j (fails k reason) h = update-keeps k j (was_failed reason) s h

  Reach-keeps :
      {s t : State} (j : String) → Reach s t → find_unique s j ≢ none → find_unique t j ≢ none
  Reach-keeps j here h = h
  Reach-keeps j (next r st) h = Step-keeps j st (Reach-keeps j r h)

  answer-not_fresh :
      (r : PayoutIntent) (result : PayoutIntentResult)
      → answer r ≡ ok result
      → result.duplicate ≡ true
  answer-not_fresh r result e = ground (arith, e)

  claim-present :
      (derived : String) (input : PayoutIntentInput) (s : State)
      → find_unique (claim intents derived input s).0 (key_of derived input) ≢ none
  claim-present derived input s e = elim (Option-cases (find_unique s (key_of derived input))) [
    | inl free ↦ some≢none (sym (claim-fresh derived input s free).1 ∙ e)
    | inr (r, taken) ↦ some≢none (sym (claim-taken derived input s r taken).1 ∙ e)
  ]

  -- Once a claim under a key has run, no later claim under that key is told to go ahead, whatever
  -- claims, submissions, confirmations and failures come in between.
  pub claimed_once :
      (derived₁ derived₂ : String) (input₁ input₂ : PayoutIntentInput) (s t : State)
      (result : PayoutIntentResult)
      → key_of derived₁ input₁ ≡ key_of derived₂ input₂
      → Reach (claim intents derived₁ input₁ s).0 t
      → (claim intents derived₂ input₂ t).1 ≡ ok result
      → result.duplicate ≡ true
  claimed_once derived₁ derived₂ input₁ input₂ s t result same reach runs =
      let present = Reach-keeps (key_of derived₁ input₁) reach (claim-present derived₁ input₁ s) in
      elim (Option-cases (find_unique t (key_of derived₂ input₂))) [
        | inl gone ↦ absurd (present (ap (find_unique t) same ∙ gone))
        | inr (r, taken) ↦
            answer-not_fresh r result (sym (claim-taken derived₂ input₂ t r taken).0 ∙ runs)
      ]

  -- A claim right behind the confirmation of an existing intent throws.
  claim-confirmed :
      (derived k : String) (h : Option String) (now : ℕ) (input : PayoutIntentInput) (s : State)
      (r : PayoutIntent)
      → key_of derived input ≡ k
      → find_unique s k ≡ some r
      → (claim intents derived input (confirm intents k h now s).0).1
        ≡ throw (duplicate_payout (attempted_again (was_confirmed h now r)))
  unfolding confirm
  claim-confirmed derived k h now input s r same found =
      let (s', updated, row, others) = update_row k (was_confirmed h now) s r found in
      ap (λ o. (claim intents derived input (row_or_throw intents s o).0).1) updated
      ∙ (claim-taken derived input s' (was_confirmed h now r) (ap (find_unique s') same ∙ row)).0

  -- A failed payout keeps its key: a claim right behind the failure of an existing intent is
  -- answered as a duplicate.
  pub claim-failed :
      (derived k reason : String) (input : PayoutIntentInput) (s : State) (r : PayoutIntent)
      → key_of derived input ≡ k
      → find_unique s k ≡ some r
      → (claim intents derived input (fail intents k reason s).0).1
        ≡ ok (record { intent = attempted_again (was_failed reason r); duplicate = true })
  unfolding fail
  claim-failed derived k reason input s r same found =
      let (s', updated, row, others) = update_row k (was_failed reason) s r found in
      ap (λ o. (claim intents derived input (row_or_throw intents s o).0).1) updated
      ∙ (claim-taken derived input s' (was_failed reason r) (ap (find_unique s') same ∙ row)).0
