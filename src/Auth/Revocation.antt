-- ===== src/Auth/Revocation.antt =====
-- `validateToken` with tokens that are new, revoked, or of an older generation.
use text.Mathlib.Text.{◌==◌ as str_eq}
use elite_work.Base.{
  ℕ, ◌+◌, ◌-◌, ◌≡◌, ◌≤◌, ◌<◌, refl, ap, ◌∙◌, subst, String, Bool, true, false, Option, none, some,
  arith,
}
use elite_work.Base.Tests.{ltb, leb, if◌then◌else◌, get_or_else}
use elite_work.Base.Outcome.{Outcome, ok, throw, throw_if, ◌>>◌}
use elite_work.Base.Redis.{Redis, Value, text_value, number_value, number_or_zero}
use elite_work.Auth.{
  AuthError, Key, revoked_jti, token_version, JwtPayload, Config, Jwt, Wallets, token_revoked,
  is_token_revoked, get_token_version, bump_token_version, revoke_token, issued_payload,
  issue_token, assert_valid, validate_token,
}

-- What `INCR` does not refuse.
abbrev pub IsCounter : Option Value → Type 0
IsCounter none = Unit
IsCounter (some (number_value n)) = Unit
IsCounter (some (text_value x)) = ⊥

module _ (redis : Redis Key) (jwt : Jwt) (wallets : Wallets) (config : Config) where
  open redis use {State, get, set_ex, incr, get-set_ex, incr_absent, incr_number, get-incr_other}

  pub listed :
      (jti : String) (v : Value) (now : ℕ) (s : State)
      → get s now (revoked_jti jti) ≡ some v
      → is_token_revoked redis jwt wallets config jti now s ≡ true
  unfolding is_token_revoked
  listed jti v now s e = rw (e, is_token_revoked) refl

  pub unlisted :
      (jti : String) (now : ℕ) (s : State)
      → get s now (revoked_jti jti) ≡ none
      → is_token_revoked redis jwt wallets config jti now s ≡ false
  unfolding is_token_revoked
  unlisted jti now s e = rw (e, is_token_revoked) refl

  -- What the deny-list says of a token behind its revocation.
  pub revoke-row :
      (jti : String) (expires now later : ℕ) (s : State)
      → now < expires
      → get (revoke_token redis jwt wallets config jti expires now s) later (revoked_jti jti)
        ≡ (if ltb later expires then some (text_value "1") else none)
  unfolding revoke_token
  revoke-row jti expires now later s before =
      let kept : leb expires now ≡ false = ground arith in
      let ends : now + (expires - now) ≡ expires = omega arith in
      rw kept
        (get-set_ex (revoked_jti jti) (text_value "1") (expires - now) now later s ∙ rw ends refl)

  pub revoked_until :
      (jti : String) (expires now later : ℕ) (s : State)
      → now ≤ later
      → later < expires
      → is_token_revoked redis jwt wallets config jti later
          (revoke_token redis jwt wallets config jti expires now s)
        ≡ true
  revoked_until jti expires now later s after before =
      let live : ltb later expires ≡ true = ground arith in
      listed jti (text_value "1") later _
        (revoke-row jti expires now later s (omega arith) ∙ rw live refl)

  validate-checks :
      (token : jwt.Token) (p : JwtPayload) (later : ℕ) (s : State)
      → str_eq config.jwt_secret "" ≡ false
      → jwt.verify config false later token ≡ ok p
      → str_eq p.jti "" ≡ false
      → validate_token redis jwt wallets config token later s ≡ (
          throw_if (is_token_revoked redis jwt wallets config p.jti later s) token_revoked
          >> (throw_if
                (ltb
                  (get_or_else p.tv 0)
                  (get_token_version redis jwt wallets config p.wallet_address later s))
                token_revoked
              >> ok p))
  unfolding validate_token assert_valid
  validate-checks token p later s set verified named = rw (set, verified, named) refl

  -- A token that has been revoked until it expires is refused as revoked all that time.
  revoke-validate :
      (token : jwt.Token) (p : JwtPayload) (expires now later : ℕ) (s : State)
      → str_eq config.jwt_secret "" ≡ false
      → jwt.verify config false later token ≡ ok p
      → str_eq p.jti "" ≡ false
      → now ≤ later
      → later < expires
      → validate_token redis jwt wallets config token later
          (revoke_token redis jwt wallets config p.jti expires now s)
        ≡ throw token_revoked
  revoke-validate token p expires now later s set verified named after before =
      validate-checks token p later _ set verified named
      ∙ rw (revoked_until p.jti expires now later s after before) refl

  -- A new generation is above the one before it.
  bumped :
      (wallet : String) (tv now : ℕ) (s : State)
      → IsCounter (get s now (token_version (wallets.to_lower_case wallet)))
      → tv ≤ get_token_version redis jwt wallets config wallet now s
      → ltb tv (
          get_token_version redis jwt wallets config wallet now
            (bump_token_version redis jwt wallets config wallet now s).0)
        ≡ true
  unfolding get_token_version bump_token_version
  bumped wallet tv now s counted old = from (get s now k) refl
    where
      k : Key
      k = token_version (wallets.to_lower_case wallet)

      from :
          (o : Option Value)
          → get s now k ≡ o
          → ltb tv (number_or_zero (get (incr k now s).0 now k)) ≡ true
      from none e = let row = (incr_absent k now s e).1 in ground (arith, row, e, old)
      from (some (number_value n)) e =
          let row = (incr_number k now n s e).1 in ground (arith, row, e, old)
      from (some (text_value x)) e = absurd (subst IsCounter e counted)

  either_way :
      (b : Bool) (p : JwtPayload)
      → Path
          (Outcome AuthError JwtPayload)
          (throw_if b token_revoked >> (throw token_revoked >> ok p))
          (throw token_revoked)
  either_way true p = refl
  either_way false p = refl

  -- Behind a new generation of a wallet's tokens, the older ones are refused as revoked.
  pub bump-validate :
      (token : jwt.Token) (p : JwtPayload) (now : ℕ) (s : State)
      → str_eq config.jwt_secret "" ≡ false
      → jwt.verify config false now token ≡ ok p
      → str_eq p.jti "" ≡ false
      → IsCounter (get s now (token_version (wallets.to_lower_case p.wallet_address)))
      → get_or_else p.tv 0 ≤ get_token_version redis jwt wallets config p.wallet_address now s
      → validate_token redis jwt wallets config token now
          (bump_token_version redis jwt wallets config p.wallet_address now s).0
        ≡ throw token_revoked
  bump-validate token p now s set verified named counted old =
      validate-checks token p now _ set verified named
      ∙ rw (bumped p.wallet_address (get_or_else p.tv 0) now s counted old)
          (either_way (is_token_revoked redis jwt wallets config p.jti now _) p)

  lowered :
      (wallet : String) (now : ℕ) (s : State)
      → wallets.to_lower_case (wallets.to_lower_case wallet) ≡ wallets.to_lower_case wallet
      → get_token_version redis jwt wallets config (wallets.to_lower_case wallet) now s
        ≡ get_token_version redis jwt wallets config wallet now s
  unfolding get_token_version
  lowered wallet now s lower = rw lower refl

  issued_token :
      (wallet jti : String) (token : jwt.Token) (now : ℕ) (s : State)
      → issue_token redis jwt wallets config wallet jti now s ≡ ok token
      → (str_eq config.jwt_secret "" ≡ false)
        × (token
            ≡ jwt.sign (issued_payload redis jwt wallets config wallet jti now s) config.jwt_secret)
  unfolding issue_token
  issued_token wallet jti token now s issued = ground (arith, issued)

  -- A token that is not revoked is valid from the moment of its issue until it expires, as long as
  -- the wallet's generation stays; the lower case of a text is its own lower case.
  pub issued-validate :
      (wallet jti : String) (token : jwt.Token) (now later : ℕ) (s t : State)
      → issue_token redis jwt wallets config wallet jti now s ≡ ok token
      → str_eq jti "" ≡ false
      → get t later (revoked_jti jti) ≡ none
      → wallets.to_lower_case (wallets.to_lower_case wallet) ≡ wallets.to_lower_case wallet
      → get_token_version redis jwt wallets config wallet later t
        ≡ get_token_version redis jwt wallets config wallet now s
      → now ≤ later
      → later < now + config.expires_in
      → validate_token redis jwt wallets config token later t
        ≡ ok (issued_payload redis jwt wallets config wallet jti now s)
  issued-validate wallet jti token now later s t issued named fresh lower same after before =
      let p = issued_payload redis jwt wallets config wallet jti now s in
      let (set, signed) = issued_token wallet jti token now s issued in
      let verified : jwt.verify config false later token ≡ ok p =
        ap (jwt.verify config false later) signed
        ∙ jwt.verify-sign config false later now (now + config.expires_in) p refl refl refl refl
            after before in
      let current : ltb (get_token_version redis jwt wallets config wallet now s)
            (get_token_version redis jwt wallets config (wallets.to_lower_case wallet) later t)
          ≡ false =
        ground (arith, same, lowered wallet later t lower) in
      validate-checks token p later t set verified named
      ∙ rw (unlisted jti later t fresh, current) refl
