-- ===== src/Tests/Tokens.antt =====
-- Challenges, tokens and clawback locks with a Redis of concrete entries.
use text.Mathlib.Text.{◌==◌ as str_eq}
use text.Mathlib.TextEquality.{eq_iff}
use elite_work.Base.{
  ℕ, ◌≡◌, ◌≤◌, ◌<◌, ◌↔◌, refl, sym, ◌∙◌, String, Bool, true, false, not, ◌&&◌, Option, none, some,
  List, [], ◌∷◌, arith,
}
use elite_work.Base.Tests.{ltb, leb, if◌then◌else◌}
use elite_work.Base.Outcome.{Outcome, ok, throw}
use elite_work.Base.Redis.{Redis}
use elite_work.Base.Redis.Timed.{timed}
use elite_work.Auth.{
  Key, challenge, failures, revoked_jti, token_version, JwtPayload, Config, Jwt, JwtError, Wallets,
  AuthError, token_expired_error, not_before_error, json_web_token_error, too_many_failures,
  check_refresh, assert_recent, refresh_token, revoke_token, bump_token_version, validate_token,
  get_token_version, issue_token, issued_payload, is_token_revoked, refresh_claimed,
}
use elite_work.Auth.Revocation.{issued-validate}
use elite_work.Auth.Refresh.{logged_out-refresh, bumped-refresh}
use elite_work.Auth.Reuse.{refresh_once, Action, refreshes, revokes, bumps, acts}
use elite_work.Auth.Challenges.{guesses-lock_out, Guess, guesses, verify}

abbrev same_key : Key → Key → Bool
same_key (challenge a) (challenge b) = str_eq a b
same_key (failures a) (failures b) = str_eq a b
same_key (revoked_jti a) (revoked_jti b) = str_eq a b
same_key (token_version a) (token_version b) = str_eq a b
same_key _ _ = false

same_key_iff : (j k : Key) → (same_key j k ≡ true) ↔ (j ≡ k)
same_key_iff (challenge a) (challenge b) = ground (arith, eq_iff a b)
same_key_iff (failures a) (failures b) = ground (arith, eq_iff a b)
same_key_iff (revoked_jti a) (revoked_jti b) = ground (arith, eq_iff a b)
same_key_iff (token_version a) (token_version b) = ground (arith, eq_iff a b)
same_key_iff _ _ = ground arith

abbrev redis : Redis Key
redis = timed Key same_key same_key_iff

abbrev empty : redis.State
empty = λ k. none

-- A token that is its claims and the secret that it is signed with.
abbrev is_before : (now : ℕ) → Option ℕ → Bool
is_before now none = false
is_before now (some t) = ltb now t

abbrev is_behind : (now : ℕ) → Option ℕ → Bool
is_behind now none = false
is_behind now (some t) = leb t now

abbrev checked : Config → Bool → ℕ → JwtPayload × String → Outcome JwtError JwtPayload
checked config ignore now (p, secret) =
    if not (
      str_eq secret config.jwt_secret
      && str_eq p.iss config.jwt_issuer
      && str_eq p.aud config.jwt_audience)
    then throw json_web_token_error
    else if is_before now p.nbf
    then throw not_before_error
    else if not ignore && is_behind now p.exp
    then throw token_expired_error
    else ok p

checked_claims :
    (config : Config) (b : Bool) (now : ℕ) (token : JwtPayload × String) (p : JwtPayload)
    → checked config b now token ≡ ok p
    → token.0 ≡ p
checked_claims config b now (q, secret) p h = ground (arith, h)

checked_signed :
    (config : Config) (b : Bool) (now issued expires : ℕ) (p : JwtPayload)
    → p.iss ≡ config.jwt_issuer
    → p.aud ≡ config.jwt_audience
    → p.nbf ≡ some issued
    → p.exp ≡ some expires
    → issued ≤ now
    → now < expires
    → checked config b now (p, config.jwt_secret) ≡ ok p
checked_signed config b now issued expires p iss aud nbf exp from to = ground (
  arith,
  iss,
  aud,
  nbf,
  exp,
  eq_iff config.jwt_secret config.jwt_secret,
  eq_iff p.iss config.jwt_issuer,
  eq_iff p.aud config.jwt_audience,
)

abbrev jwt : Jwt
jwt = record {
  Token = JwtPayload × String;
  sign = λ p secret. (p, secret);
  verify = checked;
  verify_same = λ config b c now later token p q h k.
      sym (checked_claims config b now token p h) ∙ checked_claims config c later token q k;
  verify-sign = checked_signed;
}

abbrev wallets : Wallets
wallets = record {
  is_valid_key = λ w. true;
  is_signed = λ w c signed. str_eq signed "good";
  to_lower_case = λ w. w;
}

abbrev config : Config
config = record {
  jwt_secret = "s3cret";
  jwt_issuer = "amana";
  jwt_audience = "app";
  expires_in = 3_600;
}

abbrev claims : JwtPayload
claims = record {
  sub = "gwallet";
  wallet_address = "gwallet";
  jti = "j-1";
  tv = some 0;
  iss = "amana";
  aud = "app";
  iat = some 1_000;
  nbf = some 1_000;
  exp = some 4_600;
}

abbrev token : jwt.Token
token = (claims, "s3cret")

check_5000 : check_refresh redis jwt wallets config token 5_000 ≡ ok (claims, 1_000, 4_600)
unfolding check_refresh assert_recent
check_5000 = refl

check_2000 : check_refresh redis jwt wallets config token 2_000 ≡ ok (claims, 1_000, 4_600)
unfolding check_refresh assert_recent
check_2000 = refl

abbrev renewed : jwt.Token
renewed = (
  issued_payload redis jwt wallets config "gwallet" "j-2" 5_000
      (revoke_token redis jwt wallets config "j-1" 5_900 5_000 empty),
  "s3cret",
)

renews_5000 : (refresh_token redis jwt wallets config token "j-2" 5_000 empty).1 ≡ ok renewed
unfolding refresh_token check_refresh assert_recent refresh_claimed is_token_revoked issue_token
renews_5000 = refl

-- The old token once more, a revocation of another one, and a new generation.
abbrev busy_hour : List (Action redis jwt wallets config)
busy_hour = refreshes token "j-3" 5_050 ∷ revokes "j-8" 9_000 5_060 ∷ bumps "gwallet" 5_070 ∷ []

other_token : Path String "j-1" "j-8" → ⊥
other_token same = differ (sym ((eq_iff "j-1" "j-8").1 same))
  where
    differ : Path Bool true false → ⊥
    differ h = cc

refresh_once_example :
    (e : AuthError) × ((refresh_token redis jwt wallets config token "j-4" 5_100 (
        acts redis jwt wallets config busy_hour
          (refresh_token redis jwt wallets config token "j-2" 5_000 empty).0)).1
      ≡ throw e)
refresh_once_example =
    refresh_once redis jwt wallets config token "j-2" "j-4" renewed 5_000 5_100 busy_hour empty
      claims 1_000 4_600 check_5000 renews_5000 (omega arith, (other_token, (tt, tt))) (omega arith)

logged_out-refresh_example :
    (new : jwt.Token) × ((refresh_token redis jwt wallets config token "j-2" 5_000
        (revoke_token redis jwt wallets config "j-1" 4_600 2_000 empty)).1
      ≡ ok new)
logged_out-refresh_example =
    logged_out-refresh redis jwt wallets config token "j-2" 2_000 5_000 empty claims 1_000 4_600
      check_5000 (omega arith) (omega arith)

bumped-refresh_example :
    (new : jwt.Token) × ((refresh_token redis jwt wallets config token "j-2" 2_000
        (bump_token_version redis jwt wallets config "gwallet" 2_000 empty).0).1
      ≡ ok new)
bumped-refresh_example =
    bumped-refresh redis jwt wallets config token "j-2" "gwallet" 2_000 empty claims 1_000 4_600
      check_2000 refl

abbrev fresh_claims : JwtPayload
fresh_claims = issued_payload redis jwt wallets config "gwallet" "j-9" 7_000 empty

issues :
    issue_token redis jwt wallets config "gwallet" "j-9" 7_000 empty ≡ ok (fresh_claims, "s3cret")
unfolding issue_token
issues = refl

same_version :
    get_token_version redis jwt wallets config "gwallet" 8_000 empty
    ≡ get_token_version redis jwt wallets config "gwallet" 7_000 empty
unfolding get_token_version
same_version = refl

issued-validate_example :
    validate_token redis jwt wallets config (fresh_claims, "s3cret") 8_000 empty ≡ ok fresh_claims
issued-validate_example =
    issued-validate redis jwt wallets config "gwallet" "j-9" (fresh_claims, "s3cret") 7_000 8_000
      empty empty issues refl refl refl same_version (omega arith) (omega arith)

abbrev five : List Guess
five =
    record { random = "a"; signed = "x"; at = 10 }
    ∷ record { random = "b"; signed = "x"; at = 20 }
    ∷ record { random = "c"; signed = "y"; at = 30 }
    ∷ record { random = "d"; signed = "y"; at = 40 }
    ∷ record { random = "e"; signed = "z"; at = 50 }
    ∷ []

guesses-lock_out_example :
    (verify redis jwt wallets config "gwallet"
      (ok tt)
      "good"
      "j-1"
      60
      (guesses redis jwt wallets config "gwallet" (ok tt) five empty)).1
    ≡ throw too_many_failures
guesses-lock_out_example =
    guesses-lock_out redis jwt wallets config "gwallet" (ok tt) 10 refl five empty "good" "j-1" 60
      (λ t from to. refl)
      (
        (refl, refl, omega arith, omega arith),
        (
          (refl, refl, omega arith, omega arith),
          (
            (refl, refl, omega arith, omega arith),
            ((refl, refl, omega arith, omega arith), ((refl, refl, omega arith, omega arith), tt)),
          ),
        ),
      )
      (omega arith) (omega arith) (omega arith)
