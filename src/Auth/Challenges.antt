-- ===== src/Auth/Challenges.antt =====
-- `verifySignatureAndIssueJWT`: what a challenge is good for, and the lockout behind wrong answers.
use text.Mathlib.Text.{◌==◌ as str_eq}
use elite_work.Base.{
  ℕ, suc, ◌+◌, ◌≡◌, ◌≢◌, ◌≤◌, ◌<◌, ◌⊎◌, inl, inr, refl, ap, ◌∙◌, String, Bool, true, false, Option,
  none, some, min, arith, List, [], ◌∷◌,
}
use elite_work.Base.Tests.{ltb, leb, if◌then◌else◌, Bool-cases}
use elite_work.Base.Lists.{length, All}
use elite_work.Base.Outcome.{Outcome, throw}
use elite_work.Base.Redis.{Redis, text_value, number_value, number_or_zero}
use elite_work.Auth.{
  AuthError, Key, challenge, failures, Config, Jwt, Wallets, challenge_ttl, is_challenged,
  too_many_failures, challenge_expired, generate_challenge, verify_taken,
  verify_signature_and_issue_jwt,
}

-- An answer to a challenge that the service made: the random text of the challenge, the signature,
-- and the second.
pub record Guess : Type 0 where
  pub random : String
  pub signed : String
  pub at : ℕ

same_ttl : (b : Bool) → Path ℕ (if b then 900 else 900) 900
same_ttl true = refl
same_ttl false = refl

module _ (redis : Redis Key) (jwt : Jwt) (wallets : Wallets) (config : Config) where
  open redis use {State, get, set_ex, del, get-set_ex, get-set_ex_other, get-del, get-del_other}

  module _ (wallet : String) (user_found : Outcome AuthError Unit) where
    abbrev id : String
    id = wallets.to_lower_case wallet

    abbrev pub verify :
        (signed jti : String) (now : ℕ) → State → State × Outcome AuthError jwt.Token
    verify signed jti now s =
        verify_signature_and_issue_jwt redis jwt wallets config wallet signed jti user_found now s

    -- Where a challenge is not there, or the wallet is locked out, a verification throws.
    unanswered :
        (signed jti : String) (now : ℕ) (s : State)
        → get s now (challenge id) ≡ none
        → ((verify signed jti now s).1 ≡ throw challenge_expired)
          ⊎ ((verify signed jti now s).1 ≡ throw too_many_failures)
    unfolding verify_signature_and_issue_jwt verify_taken
    unanswered signed jti now s absent =
        elim (Bool-cases (leb 5 (number_or_zero (get s now (failures id))))) [
          | inl locked ↦ inr (rw locked refl)
          | inr open_still ↦ inl (rw (open_still, absent) refl)
        ]

    taken-keeps :
        (signed jti : String) (now later : ℕ) (o : Option String) (s : State)
        → get s later (challenge id) ≡ none
        → get
            (verify_taken redis jwt wallets config wallet signed jti user_found now o s).0
            later
            (challenge id)
          ≡ none
    unfolding verify_taken
    taken-keeps signed jti now later none s h = h
    taken-keeps signed jti now later (some c) s h =
        elim (Bool-cases (wallets.is_signed wallet c signed)) [
          | inl right ↦ rw right (get-del_other (failures id) (challenge id) later s (λ e. cc) ∙ h)
          | inr wrong ↦
              rw wrong (get-set_ex_other (failures id) (challenge id) _ _ now later s (λ e. cc) ∙ h)
        ]

    -- Behind a verification that was not locked out, the challenge is gone.
    consumed :
        (signed jti : String) (now later : ℕ) (s : State)
        → (verify signed jti now s).1 ≢ throw too_many_failures
        → get (verify signed jti now s).0 later (challenge id) ≡ none
    unfolding verify_signature_and_issue_jwt verify_taken
    consumed signed jti now later s passed =
        elim (Bool-cases (leb 5 (number_or_zero (get s now (failures id))))) [
          | inl locked ↦ absurd (passed (rw locked refl))
          | inr open_still ↦ rw open_still (
              taken-keeps signed jti now later _ (del (challenge id) s)
                (get-del (challenge id) later s))
        ]

    -- A challenge answers one verification: behind one that was not locked out, whatever its outcome,
    -- each verification throws until there is a new challenge.
    challenge_once :
        (signed signed' jti jti' : String) (now later : ℕ) (s : State)
        → (verify signed jti now s).1 ≢ throw too_many_failures
        → let (s', outcome) = verify signed jti now s in
          ((verify signed' jti' later s').1 ≡ throw challenge_expired)
          ⊎ ((verify signed' jti' later s').1 ≡ throw too_many_failures)
    challenge_once signed signed' jti jti' now later s passed =
        unanswered signed' jti' later _ (consumed signed jti now later s passed)

    locked_out :
        (signed jti : String) (t : ℕ) (s : State)
        → leb 5 (number_or_zero (get s t (failures id))) ≡ true
        → (verify signed jti t s).1 ≡ throw too_many_failures
    unfolding verify_signature_and_issue_jwt
    locked_out signed jti t s locked = rw locked refl

    -- A new challenge, and an answer to it in the same second.
    unfoldable pub guess : Guess → State → State
    guess g s =
        (verify g.signed "" g.at
          (generate_challenge redis jwt wallets config wallet g.random g.at s).0).0

    abbrev pub guesses : List Guess → State → State
    guesses [] s = s
    guesses (g ∷ gs) s = guesses gs (guess g s)

    module _ (start : ℕ) (valid : wallets.is_valid_key wallet ≡ true) where
      -- The count of failures is `n` all through the window.
      abbrev pub IsCount : State → ℕ → Type 0
      IsCount s n =
          (t : ℕ) → start ≤ t → t < start + 900 → number_or_zero (get s t (failures id)) ≡ n

      abbrev pub IsWrong : Guess → Type 0
      IsWrong g =
          (wallets.is_signed wallet g.random g.signed ≡ false)
          × (str_eq g.random "" ≡ false)
          × (start ≤ g.at)
          × (g.at < start + 900)

      abbrev challenged : Guess → State → State
      challenged g s = set_ex (challenge id) (text_value g.random) challenge_ttl g.at s

      generated :
          (g : Guess) (s : State)
          → (generate_challenge redis jwt wallets config wallet g.random g.at s).0 ≡ challenged g s
      unfolding generate_challenge
      generated g s = rw valid refl

      guess-locked :
          (g : Guess) (s : State)
          → leb 5 (number_or_zero (get (challenged g s) g.at (failures id))) ≡ true
          → guess g s ≡ challenged g s
      unfolding guess verify_signature_and_issue_jwt
      guess-locked g s locked =
          ap (λ x. (verify g.signed "" g.at x).0) (generated g s) ∙ rw locked refl

      posed :
          (g : Guess) (s : State)
          → str_eq g.random "" ≡ false
          → is_challenged (get (challenged g s) g.at (challenge id)) ≡ some g.random
      posed g s named =
          let live : ltb g.at (g.at + 300) ≡ true = ground arith in
          rw (get-set_ex (challenge id) (text_value g.random) 300 g.at g.at s, live, named) refl

      failed :
          (signed jti c : String) (now : ℕ) (s : State)
          → wallets.is_signed wallet c signed ≡ false
          → (verify_taken redis jwt wallets config wallet signed jti user_found now (some c) s).0
            ≡ set_ex
                (failures id)
                (number_value (number_or_zero (get s now (failures id)) + 1))
                900
                now
                s
      unfolding verify_taken
      failed signed jti c now s wrong =
          rw (wrong, same_ttl (leb 5 (number_or_zero (get s now (failures id)) + 1))) refl

      -- What Redis holds behind a wrong answer that is not locked out.
      abbrev marked : Guess → State → State
      marked g s =
          let s' = del (challenge id) (challenged g s) in
          set_ex (failures id) (number_value (number_or_zero (get s' g.at (failures id)) + 1)) 900
            g.at s'

      guess-open :
          (g : Guess) (s : State)
          → IsWrong g
          → leb 5 (number_or_zero (get (challenged g s) g.at (failures id))) ≡ false
          → guess g s ≡ marked g s
      unfolding guess verify_signature_and_issue_jwt
      guess-open g s (wrong, named, from, to) open_still =
          ap (λ x. (verify g.signed "" g.at x).0) (generated g s)
          ∙ rw (open_still, posed g s named) (failed g.signed "" g.random g.at _ wrong)

      count_kept :
          (g : Guess) (t : ℕ) (s : State)
          → get (challenged g s) t (failures id) ≡ get s t (failures id)
      count_kept g t s =
          get-set_ex_other (challenge id) (failures id) (text_value g.random) 300 g.at t s (λ h. cc)

      -- A wrong answer counts up the failures, or leaves them at five or more.
      guess-IsCount :
          (g : Guess) (s : State) (n : ℕ)
          → IsWrong g
          → IsCount s n
          → IsCount (guess g s) (if leb 5 n then n else suc n)
      guess-IsCount g s n wrong count = elim (Bool-cases (leb 5 n)) [
        | inl locked ↦
            let h = guess-locked g s (ap (leb 5) (before g.at wrong.2 wrong.3) ∙ locked) in
            rw locked
              (λ t from to. ap (λ x. number_or_zero (get x t (failures id))) h ∙ before t from to)
        | inr open_still ↦
            let h = guess-open g s wrong (ap (leb 5) (before g.at wrong.2 wrong.3) ∙ open_still) in
            rw open_still
              (λ t from to. ap (λ x. number_or_zero (get x t (failures id))) h ∙ behind t from to)
      ]
        where
          before :
              (t : ℕ)
              → start ≤ t
              → t < start + 900
              → number_or_zero (get (challenged g s) t (failures id)) ≡ n
          before t from to = ap number_or_zero (count_kept g t s) ∙ count t from to

          behind :
              (t : ℕ)
              → start ≤ t
              → t < start + 900
              → number_or_zero (get (marked g s) t (failures id)) ≡ suc n
          behind t from to =
              let s' = del (challenge id) (challenged g s) in
              let counted : number_or_zero (get s' g.at (failures id)) ≡ n =
                ap number_or_zero
                  (get-del_other (challenge id) (failures id) g.at (challenged g s) (λ h. cc))
                ∙ before g.at wrong.2 wrong.3 in
              let live : ltb t (g.at + 900) ≡ true = ground (arith, wrong.2) in
              ap number_or_zero (get-set_ex (failures id) _ 900 g.at t s')
              ∙ rw live (ground (arith, counted))

      guesses-IsCount :
          (gs : List Guess) (s : State) (n : ℕ)
          → All IsWrong gs
          → IsCount s n
          → (m : ℕ) × IsCount (guesses gs s) m × (min 5 (n + length gs) ≤ m)
      guesses-IsCount [] s n wrong count = (n, count, ground arith)
      guesses-IsCount (g ∷ gs) s n (first, others) count =
          let (m, counted, high) =
            guesses-IsCount gs (guess g s) _ others (guess-IsCount g s n first count) in
          (m, counted, ground (arith, high))

      -- Five wrong answers or more in a row lock the wallet out. The count of its failures stands at 0 at
      -- the start; each answer is wrong and comes in the same second as a new challenge that it
      -- answers; nothing else comes in between, in particular no right answer, which would delete the
      -- count. Then a verification right behind the last one throws, though its signature is right,
      -- within the 900 seconds from the start that the answers fall in as well.
      pub guesses-lock_out :
          (gs : List Guess) (s : State) (signed jti : String) (t : ℕ)
          → IsCount s 0
          → All IsWrong gs
          → 5 ≤ length gs
          → start ≤ t
          → t < start + 900
          → (verify signed jti t (guesses gs s)).1 ≡ throw too_many_failures
      guesses-lock_out gs s signed jti t count wrong enough from to =
          let (n, counted, high) = guesses-IsCount gs s 0 wrong count in
          locked_out signed jti t _ (ground (arith, counted t from to, high, enough))
