-- ===== src/Auth/Reuse.antt =====
-- `refreshToken` with a token that has been refreshed before.
use elite_work.Base.{
  ℕ, ◌+◌, ◌≡◌, ◌≢◌, ◌<◌, inl, inr, refl, sym, ap, ◌∙◌, String, Bool, true, false, some, List, [],
  ◌∷◌, max, arith,
}
use elite_work.Base.Tests.{ltb, leb, Bool-cases}
use elite_work.Base.Lists.{All}
use elite_work.Base.Outcome.{ok, throw, Outcome-cases}
use elite_work.Base.Redis.{Redis, Value, text_value}
use elite_work.Auth.{
  AuthError, Key, revoked_jti, token_version, JwtPayload, Config, Jwt, Wallets, token_revoked,
  is_token_revoked, bump_token_version, revoke_token, check_refresh,
}
use elite_work.Auth.Revocation.{listed, revoke-row}
use elite_work.Auth.Refresh.{
  refresh, unchecked, unchecked-state, refused, refused-state, refreshed, accepts, checked_later,
}

module _ (redis : Redis Key) (jwt : Jwt) (wallets : Wallets) (config : Config) where
  open redis use {State, get, set_ex, get-set_ex_other, get-incr_other}

  -- What may come between two refreshes: refreshes of any token, revocations, new generations, and
  -- any other change of Redis.
  pub data Action : Type 0 where
    refreshes : (token : jwt.Token) (jti : String) (now : ℕ) → Action
    revokes : (jti : String) (expires now : ℕ) → Action
    bumps : (wallet : String) (now : ℕ) → Action
    changes : (State → State) → Action

  abbrev pub act : Action → State → State
  act (refreshes token jti now) s = (refresh redis jwt wallets config token jti now s).0
  act (revokes jti expires now) s = revoke_token redis jwt wallets config jti expires now s
  act (bumps wallet now) s = (bump_token_version redis jwt wallets config wallet now s).0
  act (changes f) s = f s

  abbrev pub acts : List Action → State → State
  acts [] s = s
  acts (a ∷ rest) s = acts rest (act a s)

  module _ (own : String) (ends : ℕ) where
    -- The deny-list has the token until its entry ends.
    abbrev IsListed : State → Type 0
    IsListed s = (t : ℕ) → t < ends → (v : Value) × (get s t (revoked_jti own) ≡ some v)

    -- A refresh comes before the entry ends, a revocation is one of another token, and any other
    -- change leaves the entry as it is.
    abbrev pub IsApart : Action → Type 0
    IsApart (refreshes token jti now) = now < ends
    IsApart (revokes jti expires now) = own ≢ jti
    IsApart (bumps wallet now) = Unit
    IsApart (changes f) =
        (s : State) (t : ℕ) → get (f s) t (revoked_jti own) ≡ get s t (revoked_jti own)

    kept-IsListed :
        (s s' : State)
        → ((t : ℕ) → get s' t (revoked_jti own) ≡ get s t (revoked_jti own))
        → IsListed s
        → IsListed s'
    kept-IsListed s s' same list t before = let (v, there) = list t before in (v, same t ∙ there)

    revoke-other :
        (jti : String) (expires now : ℕ) (s : State)
        → own ≢ jti
        → (t : ℕ)
        → get (revoke_token redis jwt wallets config jti expires now s) t (revoked_jti own)
          ≡ get s t (revoked_jti own)
    unfolding revoke_token
    revoke-other jti expires now s ne t = elim (Bool-cases (leb expires now)) [
      | inl over ↦ rw over refl
      | inr open_still ↦
          rw open_still (
            get-set_ex_other (revoked_jti jti) (revoked_jti own) _ _ now t s (λ h. ne (same_jti h)))
    ]
      where
        same_jti : {a b : String} → Path Key (revoked_jti a) (revoked_jti b) → a ≡ b
        same_jti h = cc

    bump-other :
        (wallet : String) (now : ℕ) (s : State) (t : ℕ)
        → get (bump_token_version redis jwt wallets config wallet now s).0 t (revoked_jti own)
          ≡ get s t (revoked_jti own)
    unfolding bump_token_version
    bump-other wallet now s t =
        get-incr_other (token_version (wallets.to_lower_case wallet)) (revoked_jti own) now t s
          (λ h. cc)

    unrevoked_other :
        (jti : String) (now : ℕ) (s : State)
        → now < ends
        → IsListed s
        → is_token_revoked redis jwt wallets config jti now s ≡ false
        → own ≢ jti
    unrevoked_other jti now s before list fresh same =
        let (v, there) = list now before in
        let revoked = listed redis jwt wallets config own v now s there in
        true_not
          (sym revoked ∙ ap (λ j. is_token_revoked redis jwt wallets config j now s) same ∙ fresh)
      where
        true_not : Path Bool true false → ⊥
        true_not h = cc

    act-IsListed : (a : Action) (s : State) → IsApart a → IsListed s → IsListed (act a s)
    act-IsListed (refreshes token jti now) s before list =
        elim (Outcome-cases (check_refresh redis jwt wallets config token now)) [
          | inr (e, fails) ↦
              kept-IsListed s _
                (λ t.
                  ap (λ x. get x t (revoked_jti own))
                    (unchecked-state redis jwt wallets config token jti now s e fails))
                list
          | inl ((q, iat, exp), passes) ↦
              elim (Bool-cases (is_token_revoked redis jwt wallets config q.jti now s)) [
                | inl revoked ↦
                    kept-IsListed s _
                      (λ t.
                        ap (λ x. get x t (revoked_jti own))
                          (refused-state redis jwt wallets config token jti now s q iat exp passes
                            revoked))
                      list
                | inr fresh ↦
                    let other = unrevoked_other q.jti now s before list fresh in
                    kept-IsListed s _
                      (λ t.
                        ap (λ x. get x t (revoked_jti own))
                          (refreshed redis jwt wallets config token jti now s q iat exp passes
                            fresh)
                        ∙ revoke-other q.jti (max exp now + 900) now s other t)
                      list
              ]
        ]
    act-IsListed (revokes jti expires now) s other list =
        kept-IsListed s _ (revoke-other jti expires now s other) list
    act-IsListed (bumps wallet now) s apart list = kept-IsListed s _ (bump-other wallet now s) list
    act-IsListed (changes f) s keeps list = kept-IsListed s _ (keeps s) list

    acts-IsListed :
        (rest : List Action) (s : State) → All IsApart rest → IsListed s → IsListed (acts rest s)
    acts-IsListed [] s apart list = list
    acts-IsListed (a ∷ rest) s (first, others) list =
        acts-IsListed rest (act a s) others (act-IsListed a s first list)

  -- A token that has been refreshed is not refreshed again: each later refresh of it throws, but for
  -- the one second in which the window of its refresh ends (the last of `exp + 900`). In between may
  -- come refreshes of this token and of others while its deny-list entry lasts, revocations of other
  -- tokens, new generations, and any change of Redis that leaves the entry alone; a revocation of this
  -- token, which would rewrite the entry, must not.
  pub refresh_once :
      (token : jwt.Token) (jti jti' : String) (new : jwt.Token) (now later : ℕ)
      (between : List Action) (s : State) (p : JwtPayload) (iat exp : ℕ)
      → check_refresh redis jwt wallets config token now ≡ ok (p, iat, exp)
      → (refresh redis jwt wallets config token jti now s).1 ≡ ok new
      → All (IsApart p.jti (max exp now + 900)) between
      → later ≢ exp + 900
      → let s' = acts between (refresh redis jwt wallets config token jti now s).0 in
        (e : AuthError) × ((refresh redis jwt wallets config token jti' later s').1 ≡ throw e)
  refresh_once token jti jti' new now later between s p iat exp checked runs apart not_last =
      elim (Outcome-cases (check_refresh redis jwt wallets config token later)) [
        | inr (e, fails) ↦ (e, unchecked redis jwt wallets config token jti' later _ e fails)
        | inl ((q, iat', exp'), passes) ↦
            let s' = acts between (refresh redis jwt wallets config token jti now s).0 in
            let (same, same_end, window) =
              checked_later redis jwt wallets config token now later p q iat exp iat' exp' checked
                passes in
            let fresh =
              accepts redis jwt wallets config token jti new now s p iat exp checked runs in
            let state =
              refreshed redis jwt wallets config token jti now s p iat exp checked fresh in
            let first : IsListed p.jti (max exp now + 900)
                (refresh redis jwt wallets config token jti now s).0 =
              λ t before.
                let live : ltb t (max exp now + 900) ≡ true = ground arith in
                (
                  text_value "1",
                  ap (λ x. get x t (revoked_jti p.jti)) state
                      ∙ revoke-row redis jwt wallets config p.jti (max exp now + 900) now t s
                          (omega arith)
                      ∙ rw live refl,
                ) in
            let (v, there) =
              acts-IsListed p.jti (max exp now + 900) between _ apart first later
                (ground (arith, window, not_last)) in
            (
              token_revoked,
              refused redis jwt wallets config token jti' later _ q iat' exp' passes (
                  ap (λ x. is_token_revoked redis jwt wallets config x.jti later s') same
                  ∙ listed redis jwt wallets config p.jti v later _ there),
            )
      ]
