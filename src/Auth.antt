-- ===== src/Auth.antt =====
-- backend/src/services/auth.service.ts: challenges, the tokens issued for them, their refresh and
-- their revocation. Redis is a parameter, and so are the tokens' signatures (`jsonwebtoken`), the
-- signatures of wallets and `toLowerCase`. The clock, in seconds, and the random texts are arguments.
-- A handler returns the state of Redis besides its outcome. A Redis that does not answer, and the
-- path for doubles without `getdel`, are left out.
pub mod Revocation
pub mod Refresh
pub mod Reuse
pub mod Challenges
use text.Mathlib.Text.{◌==◌ as str_eq}
use elite_work.Base.{
  ℕ, ◌+◌, ◌-◌, ◌≡◌, ◌≤◌, ◌<◌, String, Bool, true, false, ◌||◌, Option, none, some, max,
}
use elite_work.Base.Tests.{ltb, leb, if◌then◌else◌, get_or_else, is_none}
use elite_work.Base.Outcome.{Outcome, ok, throw, throw_if, ◌>>=◌, ◌>>◌}
use elite_work.Base.Redis.{Redis, Value, text_value, number_value, number_or_zero}

-- The keys, by their prefixes.
pub data Key : Type 0 where
  challenge failures revoked_jti token_version : String → Key

abbrev pub challenge_ttl : ℕ
challenge_ttl = 300

abbrev pub auth_lockout_threshold : ℕ
auth_lockout_threshold = 5

abbrev pub auth_failure_window_seconds : ℕ
auth_failure_window_seconds = 900

abbrev pub auth_lockout_seconds : ℕ
auth_lockout_seconds = 900

abbrev pub refresh_expiry_grace_seconds : ℕ
refresh_expiry_grace_seconds = 900

abbrev pub refresh_max_age_seconds : ℕ
refresh_max_age_seconds = 604_800

-- The claims of a token; one that is missing is `none`, or the empty text.
pub record JwtPayload : Type 0 where
  pub sub : String
  pub wallet_address : String
  pub jti : String
  pub tv : Option ℕ
  pub iss : String
  pub aud : String
  pub iat : Option ℕ
  pub nbf : Option ℕ
  pub exp : Option ℕ

-- `jwt_secret` is empty where it is not set; `expires_in` is `parseInt(JWT_EXPIRES_IN) || 86400`.
pub record Config : Type 0 where
  pub jwt_secret : String
  pub jwt_issuer : String
  pub jwt_audience : String
  pub expires_in : ℕ

-- The errors of `jwt.verify`.
pub data JwtError : Type 0 where
  token_expired_error not_before_error json_web_token_error : JwtError

pub data AuthError : Type 0 where
  invalid_public_key too_many_failures challenge_expired invalid_signature : AuthError
  jwt_secret_not_set missing_jti token_revoked token_expired token_not_yet_valid : AuthError
  invalid_token refresh_failed invalid_token_claims token_too_old user_failed : AuthError

-- What the service uses of `jsonwebtoken`, and what it relies on.
pub record Jwt : Type 1 where
  pub Token : Type 0
  pub sign : JwtPayload → (secret : String) → Token
  pub verify :
      Config → (ignore_expiration : Bool) (now : ℕ) (token : Token) → Outcome JwtError JwtPayload
  -- The claims are those that the token carries.
  pub verify_same :
      (config : Config) (b c : Bool) (now later : ℕ) (token : Token) (p q : JwtPayload)
      → verify config b now token ≡ ok p
      → verify config c later token ≡ ok q
      → p ≡ q
  pub verify-sign :
      (config : Config) (ignore_expiration : Bool) (now issued expires : ℕ) (p : JwtPayload)
      → p.iss ≡ config.jwt_issuer
      → p.aud ≡ config.jwt_audience
      → p.nbf ≡ some issued
      → p.exp ≡ some expires
      → issued ≤ now
      → now < expires
      → verify config ignore_expiration now (sign p config.jwt_secret) ≡ ok p

-- What it uses of wallets: `StrKey.isValidEd25519PublicKey`, `Keypair.verify` and `toLowerCase`.
pub record Wallets : Type 0 where
  pub is_valid_key : String → Bool
  pub is_signed : (wallet challenge signed : String) → Bool
  pub to_lower_case : String → String

-- How `validateToken` answers an error of `jwt.verify`.
abbrev pub refusal : JwtError → AuthError
refusal token_expired_error = token_expired
refusal not_before_error = token_not_yet_valid
refusal json_web_token_error = invalid_token

-- `catch (error) { throw ... }`
abbrev pub or_refused :
    {A : Type 0} → (JwtError → AuthError) → Outcome JwtError A → Outcome AuthError A
or_refused f (ok a) = ok a
or_refused f (throw e) = throw (f e)

abbrev pub is_challenged : Option Value → Option String
is_challenged none = none
is_challenged (some (number_value n)) = none
is_challenged (some (text_value c)) = if str_eq c "" then none else some c

-- `!decoded.jti || !decoded.walletAddress`
abbrev pub lacks_names : JwtPayload → Bool
lacks_names p = str_eq p.jti "" || str_eq p.wallet_address ""

-- The age of a token that is refreshed.
unfoldable pub assert_recent : (iat exp now : ℕ) → Outcome AuthError Unit
assert_recent iat exp now = do
  throw_if (ltb (exp + refresh_expiry_grace_seconds) now) token_too_old
  throw_if (ltb (now + 60) iat || ltb refresh_max_age_seconds (now - iat)) token_too_old
  ok tt

-- The claims that a refresh needs: when the token was issued, and when it expires.
abbrev pub refresh_claims : JwtPayload → Outcome AuthError (ℕ × ℕ)
refresh_claims p = elim p.iat [
  | none ↦ throw invalid_token_claims
  | some iat ↦ elim p.exp [
    | none ↦ throw invalid_token_claims
    | some exp ↦ if lacks_names p then throw invalid_token_claims else ok (iat, exp)
  ]
]

module _ (redis : Redis Key) (jwt : Jwt) (wallets : Wallets) (config : Config) where
  open redis use {State, get, set_ex, del, incr}

  abbrev pub Handled : Type 0 → Type 0
  Handled A = State × Outcome AuthError A

  unfoldable pub generate_challenge : (wallet random : String) (now : ℕ) → State → Handled String
  generate_challenge wallet random now s =
      if wallets.is_valid_key wallet
      then (
        set_ex (challenge (wallets.to_lower_case wallet)) (text_value random) challenge_ttl now s,
        ok random,
      )
      else (s, throw invalid_public_key)

  -- `redis.exists(key) === 1`
  unfoldable pub is_token_revoked : (jti : String) (now : ℕ) → State → Bool
  is_token_revoked jti now s = elim (get s now (revoked_jti jti)) [ none ↦ false | some v ↦ true ]

  unfoldable pub get_token_version : (wallet : String) (now : ℕ) → State → ℕ
  get_token_version wallet now s =
      number_or_zero (get s now (token_version (wallets.to_lower_case wallet)))

  unfoldable pub bump_token_version : (wallet : String) (now : ℕ) → State → State × ℕ
  bump_token_version wallet now s = incr (token_version (wallets.to_lower_case wallet)) now s

  -- `ttl <= 0` leaves the list as it is.
  unfoldable pub revoke_token : (jti : String) (expires_at now : ℕ) → State → State
  revoke_token jti expires_at now s =
      if leb expires_at now
      then s
      else set_ex (revoked_jti jti) (text_value "1") (expires_at - now) now s

  abbrev pub issued_payload : (wallet jti : String) (now : ℕ) → State → JwtPayload
  issued_payload wallet jti now s = record {
    sub = wallets.to_lower_case wallet;
    wallet_address = wallets.to_lower_case wallet;
    jti = jti;
    tv = some (get_token_version wallet now s);
    iss = config.jwt_issuer;
    aud = config.jwt_audience;
    iat = some now;
    nbf = some now;
    exp = some (now + config.expires_in);
  }

  unfoldable pub issue_token : (wallet jti : String) (now : ℕ) → State → Outcome AuthError jwt.Token
  issue_token wallet jti now s =
      if str_eq config.jwt_secret ""
      then throw jwt_secret_not_set
      else ok (jwt.sign (issued_payload wallet jti now s) config.jwt_secret)

  -- The rest of the verification, for the challenge that `getdel` took.
  unfoldable pub verify_taken :
      (wallet signed jti : String) (user_found : Outcome AuthError Unit) (now : ℕ)
      → Option String
      → State
      → Handled jwt.Token
  unfolding issue_token
  verify_taken wallet signed jti user_found now none s = (s, throw challenge_expired)
  verify_taken wallet signed jti user_found now (some c) s =
      let identity = wallets.to_lower_case wallet in
      let next_failures = number_or_zero (get s now (failures identity)) + 1 in
      let ttl =
        if leb auth_lockout_threshold next_failures
        then auth_lockout_seconds
        else auth_failure_window_seconds in
      let cleared = del (failures identity) s in
      if wallets.is_signed wallet c signed
      then (cleared, user_found >> issue_token wallet jti now cleared)
      else (
        set_ex (failures identity) (number_value next_failures) ttl now s,
        throw invalid_signature,
      )

  -- `verifySignatureAndIssueJWT`; `user_found` is the outcome of `findOrCreateUser`.
  unfoldable pub verify_signature_and_issue_jwt :
      (wallet signed jti : String) (user_found : Outcome AuthError Unit) (now : ℕ)
      → State
      → Handled jwt.Token
  unfolding verify_taken
  verify_signature_and_issue_jwt wallet signed jti user_found now s =
      let identity = wallets.to_lower_case wallet in
      let taken = is_challenged (get s now (challenge identity)) in
      if leb auth_lockout_threshold (number_or_zero (get s now (failures identity)))
      then (s, throw too_many_failures)
      else verify_taken wallet signed jti user_found now taken (del (challenge identity) s)

  unfoldable pub assert_valid : JwtPayload → (now : ℕ) → State → Outcome AuthError JwtPayload
  unfolding is_token_revoked get_token_version
  assert_valid p now s = do
    throw_if (str_eq p.jti "") missing_jti
    throw_if (is_token_revoked p.jti now s) token_revoked
    throw_if (ltb (get_or_else p.tv 0) (get_token_version p.wallet_address now s)) token_revoked
    ok p

  unfoldable pub validate_token :
      (token : jwt.Token) (now : ℕ) → State → Outcome AuthError JwtPayload
  unfolding assert_valid
  validate_token token now s = do
    throw_if (str_eq config.jwt_secret "") jwt_secret_not_set
    p ← or_refused refusal (jwt.verify config false now token)
    assert_valid p now s

  -- The rest of the refresh, for the claims of the old token.
  unfoldable pub refresh_claimed :
      JwtPayload → (iat exp : ℕ) (jti : String) (now : ℕ) → State → Handled jwt.Token
  unfolding is_token_revoked revoke_token issue_token
  refresh_claimed p iat exp jti now s =
      let s' = revoke_token p.jti (max exp now + refresh_expiry_grace_seconds) now s in
      if is_token_revoked p.jti now s
      then (s, throw token_revoked)
      else (s', issue_token p.wallet_address jti now s')

  -- The checks of a refresh that do not look at Redis: the claims, and their times.
  unfoldable pub check_refresh :
      (token : jwt.Token) (now : ℕ) → Outcome AuthError (JwtPayload × ℕ × ℕ)
  unfolding assert_recent
  check_refresh token now = do
    throw_if (str_eq config.jwt_secret "") jwt_secret_not_set
    p ← or_refused (λ e. refresh_failed) (jwt.verify config true now token)
    (iat, exp) ← refresh_claims p
    assert_recent iat exp now
    ok (p, iat, exp)

  -- A check that throws leaves Redis as it is.
  abbrev pub guarded : {A B : Type 0} → State → Outcome AuthError A → (A → Handled B) → Handled B
  guarded s (throw e) f = (s, throw e)
  guarded s (ok a) f = f a

  unfoldable pub refresh_token :
      (token : jwt.Token) (jti : String) (now : ℕ) → State → Handled jwt.Token
  unfolding check_refresh refresh_claimed
  refresh_token token jti now s =
      guarded s (check_refresh token now) (λ c. refresh_claimed c.0 c.1 c.2 jti now s)
