-- ===== src/Disputes/Invariant.antt =====
-- What holds of every dispute, whatever the writers do and however their steps interleave.
use text.Mathlib.Text.{◌==◌ as str_eq}
use text.Mathlib.TextEquality.{eq_iff}
use elite_work.Base.{
  ℕ, inl, inr, ◌⊎◌, subst, ◌≡◌, ◌≢◌, refl, sym, ap, ◌∙◌, String, Bool, true, false, Option, none,
  some, arith,
}
use elite_work.Base.Tests.{if◌then◌else◌, Bool-cases, get_or_else}
use elite_work.Base.Outcome.{Outcome, ok}
use elite_work.Base.Table.{Table, changed}
use elite_work.Disputes.{
  Dispute, DisputeStatus, DisputeError, transitioned, is_as_read, is_active_as_read, chain_resolved,
  is_terminal_dispute_status, is_valid_transition, apply_dispute_status_transition, resolve_active,
  sync_dispute_initiated_from_chain, initiated,
}
use elite_work.Disputes.Sync.{sync_initiated}

some-injective : {a b : Dispute} → some a ≡ some b → a ≡ b
some-injective h = cc

ok-injective : {S : Type 0} {a b : S} → Path (Outcome DisputeError S) (ok a) (ok b) → a ≡ b
ok-injective h = cc

if_true : {A : Type 0} {b : Bool} → b ≡ true → (x y : A) → (if b then x else y) ≡ x
if_true h x y = rw h refl

if_false : {A : Type 0} {b : Bool} → b ≡ false → (x y : A) → (if b then x else y) ≡ y
if_false h x y = rw h refl

true≢false : true ≢ false
true≢false h = cc

-- A dispute has a time of resolution exactly when its status is terminal.
abbrev pub IsStamped : Dispute → Type 0
IsStamped d =
    (is_terminal_dispute_status d.status ≡ true → d.resolved_at ≢ none)
    × (is_terminal_dispute_status d.status ≡ false → d.resolved_at ≡ none)

transitioned-IsStamped :
    (read d : Dispute) (to : DisputeStatus) (now : ℕ)
    → is_valid_transition read.status to ≡ true
    → is_as_read read d ≡ true
    → IsStamped d
    → IsStamped (transitioned to now d)
unfolding transitioned is_as_read is_valid_transition is_terminal_dispute_status
transitioned-IsStamped read d to now valid same h = ground arith

chain_resolved-IsStamped : (d : Dispute) (now : ℕ) → IsStamped (chain_resolved now d)
unfolding is_terminal_dispute_status
chain_resolved-IsStamped d now = ground arith

initiated-IsStamped : (id : ℕ) (k initiator : String) → IsStamped (initiated id k initiator)
unfolding is_terminal_dispute_status
initiated-IsStamped id k initiator = ground arith

module _ (disputes : Table String Dispute) where
  open disputes use {State, find_unique, update_many, find-update_many}

  -- The writers: a mediator with a reading of any age and a transition that was valid for it, a
  -- chain sync with a reading of any age, and an initiation on the chain.
  pub data Step (s : State) : State → Type 0 where
    mediate :
        (read : Dispute) (to : DisputeStatus) (now : ℕ)
        → is_valid_transition read.status to ≡ true
        → Step s (apply_dispute_status_transition disputes read to now s).0
    resolve :
        (read : Dispute) (now : ℕ) (s' : State)
        → resolve_active disputes read now s ≡ ok s'
        → Step s s'
    initiate :
        (id : ℕ) (k initiator : String) (s' : State)
        → sync_dispute_initiated_from_chain disputes id k initiator s ≡ ok s'
        → Step s s'

  pub data Reach (s : State) : State → Type 0 where
    here : Reach s s
    next : {t u : State} → Reach s t → Step t u → Reach s u

  abbrev pub AllStamped : State → Type 0
  AllStamped s = (k : String) (d : Dispute) → find_unique s k ≡ some d → IsStamped d

  changed-IsStamped :
      (p : Dispute → Bool) (f : Dispute → Dispute) (o : Option Dispute) (d : Dispute)
      → ((r : Dispute) → o ≡ some r → IsStamped r)
      → ((r : Dispute) → p r ≡ true → IsStamped r → IsStamped (f r))
      → changed p f o ≡ some d
      → IsStamped d
  changed-IsStamped p f none d old new e = cc
  changed-IsStamped p f (some r) d old new e = elim (Bool-cases (p r)) [
    | inl hit ↦
        subst IsStamped (some-injective (sym (if_true hit (some (f r)) (some r)) ∙ e))
          (new r hit (old r refl))
    | inr miss ↦
        subst IsStamped (some-injective (sym (if_false miss (some (f r)) (some r)) ∙ e))
          (old r refl)
  ]

  resolve_active-cases :
      (read : Dispute) (now : ℕ) (s s' : State)
      → resolve_active disputes read now s ≡ ok s'
      → (Path State s' s)
        ⊎ (Path State s' (update_many (is_active_as_read read) (chain_resolved now) s).0)
  unfolding resolve_active
  resolve_active-cases read now s s' runs = ground arith

  get_or_else-IsStamped :
      (o : Option Dispute) (new : Dispute)
      → ((r : Dispute) → o ≡ some r → IsStamped r)
      → IsStamped new
      → IsStamped (get_or_else o new)
  get_or_else-IsStamped none new old h = h
  get_or_else-IsStamped (some r) new old h = old r refl

  -- An initiation puts a stamped dispute at its own key and changes no other.
  initiate-AllStamped :
      (s s' : State) (id : ℕ) (k' initiator : String)
      → sync_dispute_initiated_from_chain disputes id k' initiator s ≡ ok s'
      → AllStamped s
      → AllStamped s'
  initiate-AllStamped s s' id k' initiator runs h k d e =
      let (s'', ran, row, others) = sync_initiated disputes s id k' initiator in
      let same : Path State s'' s' = ok-injective (sym ran ∙ runs) in
      let e' : find_unique s'' k ≡ some d = ap (λ x. find_unique x k) same ∙ e in
      elim (Bool-cases (str_eq k k')) [
        | inl hit ↦
            let at_k : find_unique s'' k ≡ find_unique s'' k' =
              ap (find_unique s'') ((eq_iff k k').0 hit) in
            subst IsStamped (some-injective (sym (at_k ∙ row) ∙ e')) (
              get_or_else-IsStamped (find_unique s k') (initiated id k' initiator) (h k')
                (initiated-IsStamped id k' initiator))
        | inr miss ↦
            h k d (sym (others k (λ eq. true≢false (sym ((eq_iff k k').1 eq) ∙ miss))) ∙ e')
      ]

  Step-AllStamped : {s t : State} → Step s t → AllStamped s → AllStamped t
  unfolding apply_dispute_status_transition resolve_active
  Step-AllStamped {s} (mediate read to now valid) h k d e =
      changed-IsStamped _ _ (find_unique s k) d (h k)
        (λ r same. transitioned-IsStamped read r to now valid same)
        (sym (find-update_many (is_as_read read) (transitioned to now) s k) ∙ e)
  Step-AllStamped {s} (resolve read now s' runs) h k d e =
      elim (resolve_active-cases read now s s' runs) [
        | inl kept ↦ h k d (sym (ap (λ x. find_unique x k) kept) ∙ e)
        | inr written ↦
            changed-IsStamped _ _ (find_unique s k) d (h k)
              (λ r same old. chain_resolved-IsStamped r now)
              (sym (find-update_many (is_active_as_read read) (chain_resolved now) s k)
                ∙ sym (ap (λ x. find_unique x k) written)
                ∙ e)
      ]
  Step-AllStamped {s} (initiate id k' initiator s' runs) h k d e =
      initiate-AllStamped s s' id k' initiator runs h k d e

  -- Whatever steps the writers take, in whatever order, every dispute stays stamped.
  pub Reach-AllStamped : {s t : State} → Reach s t → AllStamped s → AllStamped t
  Reach-AllStamped here h = h
  Reach-AllStamped (next r st) h = Step-AllStamped st (Reach-AllStamped r h)
