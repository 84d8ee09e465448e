-- ===== src/Idempotency/Once.antt =====
-- Requests with one idempotency key.
use elite_work.Base.{
  ℕ, ◌+◌, ◌<◌, ◌≡◌, ◌≢◌, inl, inr, refl, sym, ap, ◌∙◌, subst, String, Bool, true, false, none, some,
  List, [], ◌∷◌, arith,
}
use elite_work.Base.Tests.{ltb, if◌then◌else◌, Option-cases}
use elite_work.Base.Lists.{All}
use elite_work.Base.Redis.{Redis, Value, text_value}
use elite_work.Idempotency.{
  Scope, Key, cache_key, lock_key, Response, Json, Request, Acquired, cached, acquired, busy,
  executes, waits, replays, body_conflict, scope_of, acquire_script, acquire_read, parsed,
  is_other_body, answered, begin,
}

module _ (redis : Redis Key) (json : Json) (body_hash : String → String) where
  open redis use {
    State, get, set_ex, set_nx_ex, del, get-set_ex, get-set_ex_other, get-del, get-del_other,
    set_nx_ex_free, set_nx_ex_taken,
  }

  waits_not : {scope : Scope} → waits scope ≢ executes scope
  waits_not h = cc

  module _ (scope : Scope) where
    abbrev IsLocked : State → (ends : ℕ) → Type 0
    IsLocked s ends = (t : ℕ) → t < ends → (v : Value) × (get s t (lock_key scope) ≡ some v)

    abbrev pub script : (now : ℕ) → State → State × Acquired
    script now s = acquire_script redis json body_hash scope now s

    pub script-cached :
        (now : ℕ) (s : State) (v : Value)
        → get s now (cache_key scope) ≡ some v
        → script now s ≡ (s, cached v)
    unfolding acquire_script
    script-cached now s v there =
        ap
          (λ x.
            acquire_read redis json body_hash x
              (set_nx_ex (lock_key scope) (text_value "1") 30 now s) s)
          there

    pub script-free :
        (now : ℕ) (s : State)
        → get s now (cache_key scope) ≡ none
        → get s now (lock_key scope) ≡ none
        → script now s ≡ (set_ex (lock_key scope) (text_value "1") 30 now s, acquired)
    unfolding acquire_script
    script-free now s absent free =
        ap
          (λ x.
            acquire_read redis json body_hash x
              (set_nx_ex (lock_key scope) (text_value "1") 30 now s) s)
          absent
        ∙ ap (λ x. acquire_read redis json body_hash none x s)
            (set_nx_ex_free (lock_key scope) (text_value "1") 30 now s free)

    pub script-busy :
        (now : ℕ) (s : State) (w : Value)
        → get s now (cache_key scope) ≡ none
        → get s now (lock_key scope) ≡ some w
        → script now s ≡ (s, busy)
    unfolding acquire_script
    script-busy now s w absent taken =
        ap
          (λ x.
            acquire_read redis json body_hash x
              (set_nx_ex (lock_key scope) (text_value "1") 30 now s) s)
          absent
        ∙ ap (λ x. acquire_read redis json body_hash none x s)
            (set_nx_ex_taken (lock_key scope) (text_value "1") w 30 now s taken)

    pub begin-scoped :
        (r : Request) (now : ℕ) (s s' : State) (a : Acquired)
        → scope_of r ≡ some scope
        → script now s ≡ (s', a)
        → begin redis json body_hash r now s ≡ (s', answered redis json body_hash scope r.body a)
    unfolding begin
    begin-scoped r now s s' a scoped runs = rw (scoped, runs) refl

    cached-answered :
        (body : String) (v : Value)
        → answered redis json body_hash scope body (cached v) ≢ executes scope
    cached-answered body v =
        by_body _ (is_other_body redis json body_hash (parsed redis json body_hash v) body)
      where
        by_body :
            (x : Response) (b : Bool) → (if b then body_conflict else replays x) ≢ executes scope
        by_body x true h = cc
        by_body x false h = cc

    -- A request in the scope of a lock that is taken does not go on, and changes nothing.
    locked-begin :
        (r : Request) (now ends : ℕ) (s : State)
        → scope_of r ≡ some scope
        → IsLocked s ends
        → now < ends
        → ((begin redis json body_hash r now s).1 ≢ executes scope)
          × ((begin redis json body_hash r now s).0 ≡ s)
    locked-begin r now ends s scoped locked before =
        elim (Option-cases (get s now (cache_key scope))) [
          | inr (v, there) ↦
              let whole = begin-scoped r now s s (cached v) scoped (script-cached now s v there) in
              (λ h. cached-answered r.body v (ap (λ x. x.1) (sym whole) ∙ h), ap (λ x. x.0) whole)
          | inl absent ↦
              let (w, taken) = locked now before in
              let whole = begin-scoped r now s s busy scoped (script-busy now s w absent taken) in
              (λ h. waits_not (ap (λ x. x.1) (sym whole) ∙ h), ap (λ x. x.0) whole)
        ]

    -- Behind a request that goes on, its lock is taken.
    executes-IsLocked :
        (r : Request) (now : ℕ) (s : State)
        → scope_of r ≡ some scope
        → (begin redis json body_hash r now s).1 ≡ executes scope
        → IsLocked (begin redis json body_hash r now s).0 (now + 30)
    executes-IsLocked r now s scoped goes t before =
        elim (Option-cases (get s now (cache_key scope))) [
          | inr (v, there) ↦
              let whole = begin-scoped r now s s (cached v) scoped (script-cached now s v there) in
              absurd (cached-answered r.body v (ap (λ x. x.1) (sym whole) ∙ goes))
          | inl absent ↦ elim (Option-cases (get s now (lock_key scope))) [
            | inr (w, taken) ↦
                let whole = begin-scoped r now s s busy scoped (script-busy now s w absent taken) in
                absurd (waits_not (ap (λ x. x.1) (sym whole) ∙ goes))
            | inl free ↦
                let whole =
                  begin-scoped r now s _ acquired scoped (script-free now s absent free) in
                let live : ltb t (now + 30) ≡ true = ground arith in
                (
                  text_value "1",
                  ap (λ x. get x.0 t (lock_key scope)) whole
                      ∙ get-set_ex (lock_key scope) (text_value "1") 30 now t s
                      ∙ rw live refl,
                )
          ]
        ]

    -- The requests that begin one behind another, each with its second.
    abbrev pub begins : List (Request × ℕ) → State → State
    begins [] s = s
    begins ((r, now) ∷ rest) s = begins rest (begin redis json body_hash r now s).0

    abbrev pub IsRival : (ends : ℕ) → Request × ℕ → Type 0
    IsRival ends (r, now) = (scope_of r ≡ some scope) × (now < ends)

    begins-locked :
        (rest : List (Request × ℕ)) (s : State) (ends : ℕ)
        → IsLocked s ends
        → All (IsRival ends) rest
        → begins rest s ≡ s
    begins-locked [] s ends locked rivals = refl
    begins-locked ((r, now) ∷ rest) s ends locked ((scoped, before), others) =
        ap (begins rest) (locked-begin r now ends s scoped locked before).1
        ∙ begins-locked rest s ends locked others

    -- A request that went on holds off the others: as long as it has neither ended nor lost its
    -- connection, and at most for the 30 seconds that its lock lives, no other request with its method,
    -- path and key goes on, whatever requests with them begin in between.
    pub executes_once :
        (r other : Request) (now later : ℕ) (between : List (Request × ℕ)) (s : State)
        → scope_of r ≡ some scope
        → scope_of other ≡ some scope
        → (begin redis json body_hash r now s).1 ≡ executes scope
        → All (IsRival (now + 30)) between
        → later < now + 30
        → (begin redis json body_hash other later
            (begins between (begin redis json body_hash r now s).0)).1
          ≢ executes scope
    executes_once r other now later between s scoped scoped' goes rivals live =
        let locked = executes-IsLocked r now s scoped goes in
        subst (λ x. (begin redis json body_hash other later x).1 ≢ executes scope)
          (sym (begins-locked between _ (now + 30) locked rivals))
          (locked-begin other later (now + 30) _ scoped' locked live).0
