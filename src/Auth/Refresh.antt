-- ===== src/Auth/Refresh.antt =====
-- `refreshToken`: what its check sees, what it does to the deny list, and a token that has been
-- revoked or outdated by a new generation.
use text.Mathlib.Text.{◌==◌ as str_eq}
use elite_work.Base.{
  ℕ, ◌+◌, ◌≡◌, ◌≤◌, ◌<◌, inl, inr, refl, sym, ap, ◌∙◌, String, true, false, none, max, arith,
}
use elite_work.Base.Tests.{ltb, Bool-cases}
use elite_work.Base.Outcome.{Outcome, ok, throw, >>=-eq-ok, throw_if-passes}
use elite_work.Base.Redis.{Redis}
use elite_work.Auth.{
  AuthError, Key, revoked_jti, token_version, JwtError, JwtPayload, Config, Jwt, Wallets,
  token_revoked, assert_recent, is_token_revoked, bump_token_version, revoke_token, issued_payload,
  issue_token, refresh_claims, check_refresh, refresh_claimed, refresh_token, or_refused,
  refresh_failed, jwt_secret_not_set,
}
use elite_work.Auth.Revocation.{unlisted, revoke-row}

-- The window of a refresh.
assert_recent-window :
    (iat exp now : ℕ)
    → assert_recent iat exp now ≡ ok tt
    → (now ≤ exp + 900) × (iat ≤ now + 60) × (now ≤ iat + 604_800)
unfolding assert_recent
assert_recent-window iat exp now h = ground (arith, h)

ok_injective : {A : Type 0} {a b : A} → Path (Outcome AuthError A) (ok a) (ok b) → a ≡ b
ok_injective h = cc

throws_not :
    {A : Type 0} {e : AuthError} {new : A} → Path (Outcome AuthError A) (throw e) (ok new) → ⊥
throws_not h = cc

verified_as :
    (o : Outcome JwtError JwtPayload) (p : JwtPayload)
    → or_refused (λ e. refresh_failed) o ≡ ok p
    → o ≡ ok p
verified_as (ok q) p h = cc
verified_as (throw e) p h = cc

-- The claims alone fix the times.
claims_same :
    (p : JwtPayload) (a b : ℕ × ℕ) → refresh_claims p ≡ ok a → refresh_claims p ≡ ok b → a ≡ b
claims_same p a b h k = ok_injective (sym h ∙ k)

module _ (redis : Redis Key) (jwt : Jwt) (wallets : Wallets) (config : Config) where
  open redis use {State, get, incr, get-incr_other}

  abbrev pub refresh :
      (token : jwt.Token) (jti : String) (now : ℕ) → State → State × Outcome AuthError jwt.Token
  refresh = refresh_token redis jwt wallets config

  pub unchecked :
      (token : jwt.Token) (jti : String) (now : ℕ) (s : State) (e : AuthError)
      → check_refresh redis jwt wallets config token now ≡ throw e
      → (refresh token jti now s).1 ≡ throw e
  unfolding refresh_token
  unchecked token jti now s e fails = rw fails refl

  pub unchecked-state :
      (token : jwt.Token) (jti : String) (now : ℕ) (s : State) (e : AuthError)
      → check_refresh redis jwt wallets config token now ≡ throw e
      → (refresh token jti now s).0 ≡ s
  unfolding refresh_token
  unchecked-state token jti now s e fails = rw fails refl

  -- What a check that passes has seen.
  check-parts :
      (token : jwt.Token) (now : ℕ) (p : JwtPayload) (iat exp : ℕ)
      → check_refresh redis jwt wallets config token now ≡ ok (p, iat, exp)
      → (str_eq config.jwt_secret "" ≡ false)
        × (jwt.verify config true now token ≡ ok p)
        × (refresh_claims p ≡ ok (iat, exp))
        × (assert_recent iat exp now ≡ ok tt)
  unfolding check_refresh
  check-parts token now p iat exp h =
      let (set, h₁) = throw_if-passes (str_eq config.jwt_secret "") jwt_secret_not_set _ h in
      let (q, verified, h₂) =
        >>=-eq-ok (or_refused (λ e. refresh_failed) (jwt.verify config true now token)) _ h₁ in
      let ((i, x), claims, h₃) = >>=-eq-ok (refresh_claims q) _ h₂ in
      let (u, recent, h₄) = >>=-eq-ok (assert_recent i x now) _ h₃ in
      let same : q ≡ p = ap (λ c. c.0) (ok_injective h₄) in
      let same_times : (i, x) ≡ (iat, exp) = ap (λ c. (c.1, c.2)) (ok_injective h₄) in
      (
        set,
        verified_as (jwt.verify config true now token) q verified ∙ ap ok same,
        ap refresh_claims (sym same) ∙ claims ∙ ap ok same_times,
        ap (λ c. assert_recent c.0 c.1 now) (sym same_times) ∙ recent,
      )

  pub refused :
      (token : jwt.Token) (jti : String) (now : ℕ) (s : State) (p : JwtPayload) (iat exp : ℕ)
      → check_refresh redis jwt wallets config token now ≡ ok (p, iat, exp)
      → is_token_revoked redis jwt wallets config p.jti now s ≡ true
      → (refresh token jti now s).1 ≡ throw token_revoked
  unfolding refresh_token refresh_claimed
  refused token jti now s p iat exp checked revoked = rw (checked, revoked) refl

  pub refused-state :
      (token : jwt.Token) (jti : String) (now : ℕ) (s : State) (p : JwtPayload) (iat exp : ℕ)
      → check_refresh redis jwt wallets config token now ≡ ok (p, iat, exp)
      → is_token_revoked redis jwt wallets config p.jti now s ≡ true
      → (refresh token jti now s).0 ≡ s
  unfolding refresh_token refresh_claimed
  refused-state token jti now s p iat exp checked revoked = rw (checked, revoked) refl

  pub refreshed :
      (token : jwt.Token) (jti : String) (now : ℕ) (s : State) (p : JwtPayload) (iat exp : ℕ)
      → check_refresh redis jwt wallets config token now ≡ ok (p, iat, exp)
      → is_token_revoked redis jwt wallets config p.jti now s ≡ false
      → let s' = revoke_token redis jwt wallets config p.jti (max exp now + 900) now s in
        (refresh token jti now s).0 ≡ s'
  unfolding refresh_token refresh_claimed
  refreshed token jti now s p iat exp checked unrevoked = rw (checked, unrevoked) refl

  pub accepts :
      (token : jwt.Token) (jti : String) (new : jwt.Token) (now : ℕ) (s : State) (p : JwtPayload)
      (iat exp : ℕ)
      → check_refresh redis jwt wallets config token now ≡ ok (p, iat, exp)
      → (refresh token jti now s).1 ≡ ok new
      → is_token_revoked redis jwt wallets config p.jti now s ≡ false
  accepts token jti new now s p iat exp checked runs =
      elim (Bool-cases (is_token_revoked redis jwt wallets config p.jti now s)) [
        | inl revoked ↦
            absurd (throws_not (sym (refused token jti now s p iat exp checked revoked) ∙ runs))
        | inr fresh ↦ fresh
      ]

  -- The claims of a token that is checked twice, and the window of the second check.
  pub checked_later :
      (token : jwt.Token) (now later : ℕ) (p q : JwtPayload) (iat exp iat' exp' : ℕ)
      → check_refresh redis jwt wallets config token now ≡ ok (p, iat, exp)
      → check_refresh redis jwt wallets config token later ≡ ok (q, iat', exp')
      → (q ≡ p) × (exp' ≡ exp) × (later ≤ exp + 900)
  checked_later token now later p q iat exp iat' exp' h k =
      let (set, verified, claims, recent) = check-parts token now p iat exp h in
      let (set', verified', claims', recent') = check-parts token later q iat' exp' k in
      let same : q ≡ p = jwt.verify_same config true true later now token q p verified' verified in
      let times =
        claims_same p (iat', exp') (iat, exp) (ap refresh_claims (sym same) ∙ claims') claims in
      let ends : exp' ≡ exp = ap (λ c. c.1) times in
      let window = (assert_recent-window iat' exp' later recent').0 in
      (same, ends, omega (arith, ends, window))

  renews :
      (token : jwt.Token) (jti : String) (now : ℕ) (s : State) (p : JwtPayload) (iat exp : ℕ)
      → check_refresh redis jwt wallets config token now ≡ ok (p, iat, exp)
      → is_token_revoked redis jwt wallets config p.jti now s ≡ false
      → (new : jwt.Token) × ((refresh token jti now s).1 ≡ ok new)
  unfolding refresh_token refresh_claimed issue_token
  renews token jti now s p iat exp checked unrevoked =
      let s' = revoke_token redis jwt wallets config p.jti (max exp now + 900) now s in
      let set = (check-parts token now p iat exp checked).0 in
      (
        jwt.sign (issued_payload redis jwt wallets config p.wallet_address jti now s')
            config.jwt_secret,
        rw (checked, unrevoked, set) refl,
      )

  -- A token that has been revoked until it expires, which is what a logout does, is refreshed all
  -- the same between its expiry and the end of its refresh window.
  pub logged_out-refresh :
      (token : jwt.Token) (jti : String) (now later : ℕ) (s : State) (p : JwtPayload) (iat exp : ℕ)
      → check_refresh redis jwt wallets config token later ≡ ok (p, iat, exp)
      → now < exp
      → exp ≤ later
      → (new : jwt.Token) × ((refresh token jti later
            (revoke_token redis jwt wallets config p.jti exp now s)).1
          ≡ ok new)
  logged_out-refresh token jti now later s p iat exp checked before expired =
      let gone : ltb later exp ≡ false = ground arith in
      renews token jti later _ p iat exp checked (
        unlisted redis jwt wallets config p.jti later _
          (revoke-row redis jwt wallets config p.jti exp now later s before ∙ rw gone refl))

  -- A token that passes the check of a refresh (the secret is set, the signature verifies, and the
  -- refresh window is open) and is not on the deny list is refreshed even right behind a new generation
  -- of its wallet's tokens, or of another wallet's.
  pub bumped-refresh :
      (token : jwt.Token) (jti wallet : String) (now : ℕ) (s : State) (p : JwtPayload) (iat exp : ℕ)
      → check_refresh redis jwt wallets config token now ≡ ok (p, iat, exp)
      → get s now (revoked_jti p.jti) ≡ none
      → (new : jwt.Token) × ((refresh token jti now
            (bump_token_version redis jwt wallets config wallet now s).0).1
          ≡ ok new)
  unfolding bump_token_version
  bumped-refresh token jti wallet now s p iat exp checked free =
      renews token jti now _ p iat exp checked (
        unlisted redis jwt wallets config p.jti now _ (
          get-incr_other (token_version (wallets.to_lower_case wallet)) (revoked_jti p.jti) now now
            s (λ h. cc)
          ∙ free))
