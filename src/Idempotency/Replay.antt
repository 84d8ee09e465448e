-- ===== src/Idempotency/Replay.antt =====
-- The replay of a response, and what comes between its end and a request that repeats.
use text.Mathlib.Text.{◌==◌ as str_eq}
use elite_work.Base.{
  ℕ, ◌+◌, ◌≤◌, ◌<◌, ◌≡◌, ◌≢◌, inl, inr, refl, ap, ◌∙◌, String, Bool, true, false, not, ◌&&◌, none,
  some, List, [], ◌∷◌, arith,
}
use elite_work.Base.Tests.{ltb, leb, if◌then◌else◌, Bool-cases, Option-cases}
use elite_work.Base.Lists.{All}
use elite_work.Base.Redis.{Redis, text_value}
use elite_work.Idempotency.{
  Scope, Key, cache_key, lock_key, Response, CachedResponse, Json, Request, cached, acquired, busy,
  replays, body_conflict, scope_of, commit_script, is_other_body, begin, finish,
}
use elite_work.Idempotency.Once.{script-cached, script-free, script-busy, begin-scoped}

module _ (redis : Redis Key) (json : Json) (body_hash : String → String) where
  open redis use {State, get, set_ex, get-set_ex, get-set_ex_other, get-del_other}

  -- What other requests do: one begins, or one ends with its response.
  pub data Action : Type 0 where
    begins : (r : Request) (now : ℕ) → Action
    ends : (scope : Scope) (body : String) (response : Response) (now : ℕ) → Action

  abbrev pub act : Action → State → State
  act (begins r now) s = (begin redis json body_hash r now s).0
  act (ends scope body response now) s = finish redis json body_hash scope body response now s

  abbrev pub acts : List Action → State → State
  acts [] s = s
  acts (a ∷ rest) s = acts rest (act a s)

  module _ (scope : Scope) where
    stored :
        (body : String) (response : Response) (ended later : ℕ) (s : State)
        → 200 ≤ response.status
        → response.status < 300
        → later < ended + 86_400
        → get (finish redis json body_hash scope body response ended s) later (cache_key scope)
          ≡ some (
              text_value (
                json.stringify
                  (record { response = response; request_body_hash = some (body_hash body) })))
    unfolding finish commit_script
    stored body response ended later s from to live =
        let above : leb 200 response.status ≡ true = ground arith in
        let below : ltb response.status 300 ≡ true = ground arith in
        let soon : ltb later (ended + 86_400) ≡ true = ground arith in
        rw (above, below)
          (get-del_other (lock_key scope) (cache_key scope) later _ (λ h. cc)
            ∙ get-set_ex (cache_key scope) _ 86_400 ended later s
            ∙ rw soon refl)

    replay_of :
        (body other_body : String) (response : Response) (c : CachedResponse)
        → c ≡ record { response = response; request_body_hash = some (body_hash body) }
        → (if is_other_body redis json body_hash c other_body
            then body_conflict
            else replays c.response)
          ≡ (if str_eq (body_hash body) (body_hash other_body)
              then replays response
              else body_conflict)
    replay_of body other_body response c h =
        rw h (by_test (str_eq (body_hash body) (body_hash other_body)))
      where
        by_test :
            (b : Bool)
            → (if not b then body_conflict else replays response)
              ≡ (if b then replays response else body_conflict)
        by_test true = refl
        by_test false = refl

    -- A request may begin in any scope; one that ends is in another.
    abbrev pub IsElsewhere : Action → Type 0
    IsElsewhere (begins r now) = Unit
    IsElsewhere (ends other body response now) = scope ≢ other

    -- No request that begins touches a cached response.
    begin-kept :
        (r : Request) (now t : ℕ) (s : State)
        → get (begin redis json body_hash r now s).0 t (cache_key scope) ≡ get s t (cache_key scope)
    unfolding begin
    begin-kept r now t s = elim (Option-cases (scope_of r)) [
      | inl unscoped ↦ passed unscoped
      | inr (other, scoped) ↦ elim (Option-cases (get s now (cache_key other))) [
        | inr (v, there) ↦
            ap (λ x. get x.0 t (cache_key scope))
              (begin-scoped redis json body_hash other r now s s (cached v) scoped
                (script-cached redis json body_hash other now s v there))
        | inl absent ↦ elim (Option-cases (get s now (lock_key other))) [
          | inr (w, taken) ↦
              ap (λ x. get x.0 t (cache_key scope))
                (begin-scoped redis json body_hash other r now s s busy scoped
                  (script-busy redis json body_hash other now s w absent taken))
          | inl free ↦
              ap (λ x. get x.0 t (cache_key scope))
                (begin-scoped redis json body_hash other r now s _ acquired scoped
                  (script-free redis json body_hash other now s absent free))
              ∙ get-set_ex_other (lock_key other) (cache_key scope) (text_value "1") 30 now t s
                  (λ h. cc)
        ]
      ]
    ]
      where
        passed :
            scope_of r ≡ none
            → get (begin redis json body_hash r now s).0 t (cache_key scope)
              ≡ get s t (cache_key scope)
        passed unscoped = rw unscoped refl

    finish-kept :
        (other : Scope) (body : String) (response : Response) (now t : ℕ) (s : State)
        → scope ≢ other
        → get (finish redis json body_hash other body response now s) t (cache_key scope)
          ≡ get s t (cache_key scope)
    unfolding finish commit_script
    finish-kept other body response now t s ne =
        elim (Bool-cases (leb 200 response.status && ltb response.status 300)) [
          | inl success ↦ rw success (
              get-del_other (lock_key other) (cache_key scope) t _ (λ h. cc)
              ∙ get-set_ex_other (cache_key other) (cache_key scope) _ 86_400 now t s
                  (λ h. ne (same_scope h)))
          | inr failure ↦
              rw failure (get-del_other (lock_key other) (cache_key scope) t s (λ h. cc))
        ]
      where
        same_scope : {a b : Scope} → Path Key (cache_key a) (cache_key b) → a ≡ b
        same_scope h = cc

    acts-kept :
        (rest : List Action) (t : ℕ) (s : State)
        → All IsElsewhere rest
        → get (acts rest s) t (cache_key scope) ≡ get s t (cache_key scope)
    acts-kept [] t s elsewhere = refl
    acts-kept (begins r now ∷ rest) t s (first, others) =
        acts-kept rest t _ others ∙ begin-kept r now t s
    acts-kept (ends other body response now ∷ rest) t s (first, others) =
        acts-kept rest t _ others ∙ finish-kept other body response now t s first

    -- For a day behind a response of success, a request with the method, path and key of the one that
    -- it answered gets that response, or a conflict where its body has another hash, and changes
    -- nothing. In between may come requests that begin, with any method, path and key, and ends of
    -- requests with another method, path or key; one with the same, which had its lock run out, would
    -- write a response of its own. The JSON of what is cached is to read back as what was written.
    pub finish-begin :
        (body : String) (response : Response) (ended later : ℕ) (between : List Action)
        (other : Request) (s : State)
        → scope_of other ≡ some scope
        → 200 ≤ response.status
        → response.status < 300
        → later < ended + 86_400
        → All IsElsewhere between
        → json.parse (
            json.stringify
              (record { response = response; request_body_hash = some (body_hash body) }))
          ≡ record { response = response; request_body_hash = some (body_hash body) }
        → let s' = acts between (finish redis json body_hash scope body response ended s) in
          begin redis json body_hash other later s' ≡ (
            s',
            if str_eq (body_hash body) (body_hash other.body)
                then replays response
                else body_conflict,
          )
    finish-begin body response ended later between other s scoped from to live elsewhere read =
        let s' = acts between (finish redis json body_hash scope body response ended s) in
        let entry : CachedResponse = record {
          response = response;
          request_body_hash = some (body_hash body);
        } in
        let there =
          acts-kept between later _ elsewhere ∙ stored body response ended later s from to live in
        begin-scoped redis json body_hash scope other later s' s'
          (cached (text_value (json.stringify entry))) scoped
          (script-cached redis json body_hash scope later s' _ there)
        ∙ ap (λ x. (s', x)) (replay_of body other.body response _ read)
