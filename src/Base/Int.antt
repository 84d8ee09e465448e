-- ===== src/Base/Int.antt =====
-- JavaScript's `bigint` as an integer over the native numbers. `negsuc n` is -(n + 1).
use Prim.Native.Nat.{ℕ, suc, ◌+◌, ◌-◌, ◌*◌, ◌/◌, ◌≤◌, ◌<◌}
use mathlib.Core.Path.{◌≡◌, ap}
use mathlib.Core.Bool.{Bool}
use native.Mathlib.Omega.{arith}
use elite_work.Base.Tests.{ltb, leb, ◌==◌, if◌then◌else◌}

pub data ℤ : Type 0 where
  pos : ℕ → ℤ
  negsuc : ℕ → ℤ

abbrev pub pos_part : ℤ → ℕ
pos_part (pos n) = n
pos_part (negsuc n) = 0

abbrev pub neg_part : ℤ → ℕ
neg_part (pos n) = 0
neg_part (negsuc n) = suc n

abbrev pub sub_ℕ : ℕ → ℕ → ℤ
sub_ℕ a b = if leb b a then pos (a - b) else negsuc (b - a - 1)

infixl 65 ◌+ℤ◌ ◌-ℤ◌
infixl 70 ◌*ℤ◌ ◌/ℤ◌
infix 50 ◌≤ℤ◌ ◌<ℤ◌
unfoldable pub ◌+ℤ◌ : ℤ → ℤ → ℤ
a +ℤ b = sub_ℕ (pos_part a + pos_part b) (neg_part a + neg_part b)

unfoldable pub ◌-ℤ◌ : ℤ → ℤ → ℤ
a -ℤ b = sub_ℕ (pos_part a + neg_part b) (neg_part a + pos_part b)

unfoldable pub ◌*ℤ◌ : ℤ → ℤ → ℤ
a *ℤ b =
    sub_ℕ (pos_part a * pos_part b + neg_part a * neg_part b)
      (pos_part a * neg_part b + neg_part a * pos_part b)

-- `a / b` on bigints truncates toward zero. (By 0 it throws; every caller has tested for that.)
unfoldable pub ◌/ℤ◌ : ℤ → ℤ → ℤ
pos a /ℤ pos b = pos (a / b)
pos a /ℤ negsuc b = sub_ℕ 0 (a / suc b)
negsuc a /ℤ pos b = sub_ℕ 0 (suc a / b)
negsuc a /ℤ negsuc b = pos (suc a / suc b)

-- `-a`
abbrev pub neg : ℤ → ℤ
neg a = sub_ℕ (neg_part a) (pos_part a)

-- The absolute value, as a number.
abbrev pub abs : ℤ → ℕ
abs a = pos_part a + neg_part a

abbrev pub ◌≤ℤ◌ : ℤ → ℤ → Type 0
a ≤ℤ b = pos_part a + neg_part b ≤ pos_part b + neg_part a

abbrev pub ◌<ℤ◌ : ℤ → ℤ → Type 0
a <ℤ b = pos_part a + neg_part b < pos_part b + neg_part a

abbrev pub ltb_ℤ : ℤ → ℤ → Bool
ltb_ℤ a b = ltb (pos_part a + neg_part b) (pos_part b + neg_part a)

abbrev pub leb_ℤ : ℤ → ℤ → Bool
leb_ℤ a b = leb (pos_part a + neg_part b) (pos_part b + neg_part a)

abbrev pub eqb_ℤ : ℤ → ℤ → Bool
eqb_ℤ a b = (pos_part a + neg_part b) == (pos_part b + neg_part a)

-- With these the operations can stay shut.
pub +ℤ_parts :
    (a b : ℤ)
    → pos_part (a +ℤ b) + neg_part a + neg_part b ≡ neg_part (a +ℤ b) + pos_part a + pos_part b
unfolding ◌+ℤ◌
+ℤ_parts a b = ground arith

pub -ℤ_parts :
    (a b : ℤ)
    → pos_part (a -ℤ b) + neg_part a + pos_part b ≡ neg_part (a -ℤ b) + pos_part a + neg_part b
unfolding ◌-ℤ◌
-ℤ_parts a b = ground arith

pub eq_of_parts : (a b : ℤ) → pos_part a + neg_part b ≡ pos_part b + neg_part a → a ≡ b
eq_of_parts a b h = ground arith

pub ruleset int_laws = (arith, +ℤ_parts, -ℤ_parts, eq_of_parts)

pub *ℤ_parts :
    (a b : ℤ)
    → pos_part (a *ℤ b) + pos_part a * neg_part b + neg_part a * pos_part b
      ≡ neg_part (a *ℤ b) + pos_part a * pos_part b + neg_part a * neg_part b
unfolding ◌*ℤ◌
*ℤ_parts a b = ground arith

pub pos-add : (a b : ℕ) → pos a +ℤ pos b ≡ pos (a + b)
pos-add a b = omega int_laws

pub pos-mul : (a b : ℕ) → pos a *ℤ pos b ≡ pos (a * b)
unfolding ◌*ℤ◌
pos-mul a b = ground arith

pub add-mul : (a b c : ℤ) → (a +ℤ b) *ℤ c ≡ a *ℤ c +ℤ b *ℤ c
add-mul a b c = omega (
  int_laws,
  *ℤ_parts,
  ap (λ t. t * pos_part c) (+ℤ_parts a b),
  ap (λ t. t * neg_part c) (+ℤ_parts a b),
)

pub sub-mul : (a b c : ℤ) → (a -ℤ b) *ℤ c ≡ a *ℤ c -ℤ b *ℤ c
sub-mul a b c = omega (
  int_laws,
  *ℤ_parts,
  ap (λ t. t * pos_part c) (-ℤ_parts a b),
  ap (λ t. t * neg_part c) (-ℤ_parts a b),
)

-- A multiple of `d` after one step of its factor.
pub up_mul :
    (t d : ℤ)
    → pos_part ((t +ℤ pos 1) *ℤ d) + neg_part (t *ℤ d) + neg_part d
      ≡ neg_part ((t +ℤ pos 1) *ℤ d) + pos_part (t *ℤ d) + pos_part d
up_mul t d = rw (add-mul t (pos 1) d) (omega (int_laws, *ℤ_parts))

pub down_mul :
    (t d : ℤ)
    → pos_part ((t +ℤ negsuc 0) *ℤ d) + neg_part (t *ℤ d) + pos_part d
      ≡ neg_part ((t +ℤ negsuc 0) *ℤ d) + pos_part (t *ℤ d) + neg_part d
down_mul t d = rw (add-mul t (negsuc 0) d) (omega (int_laws, *ℤ_parts))

pub pred_mul :
    (t d : ℤ)
    → pos_part ((t -ℤ pos 1) *ℤ d) + neg_part (t *ℤ d) + pos_part d
      ≡ neg_part ((t -ℤ pos 1) *ℤ d) + pos_part (t *ℤ d) + neg_part d
pred_mul t d = rw (sub-mul t (pos 1) d) (omega (int_laws, *ℤ_parts))

-- Truncating division leaves a remainder below the divisor, with the sign of the dividend.
pub div_trunc_lem : (a : ℤ) (n : ℕ) → 0 < n → abs (a -ℤ (a /ℤ pos n) *ℤ pos n) < n
unfolding ◌-ℤ◌ ◌*ℤ◌ ◌/ℤ◌
div_trunc_lem (pos a) n h = ground arith
div_trunc_lem (negsuc a) n h = ground arith

pub div_trunc_sign :
    (a : ℤ) (n : ℕ)
    → 0 < n
    → (pos 0 ≤ℤ a → pos 0 ≤ℤ a -ℤ (a /ℤ pos n) *ℤ pos n)
      × (a ≤ℤ pos 0 → a -ℤ (a /ℤ pos n) *ℤ pos n ≤ℤ pos 0)
unfolding ◌-ℤ◌ ◌*ℤ◌ ◌/ℤ◌
div_trunc_sign (pos a) n h = ground arith
div_trunc_sign (negsuc a) n h = ground arith

-- An equation of integers, as two of numbers that `omega` reads.
pub parts_of_eq : {a b : ℤ} → a ≡ b → (pos_part a ≡ pos_part b) × (neg_part a ≡ neg_part b)
parts_of_eq e = (ap pos_part e, ap neg_part e)
