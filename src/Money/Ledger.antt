-- ===== src/Money/Ledger.antt =====
-- The dust ledger over any number of windows, and its settlement.
use elite_work.Base.{ℕ, ◌<◌, ◌≡◌, refl, arith, List, [], ◌∷◌}
use elite_work.Base.Int.{
  ℤ, pos, abs, ◌+ℤ◌, ◌*ℤ◌, int_laws, add-mul, *ℤ_parts, parts_of_eq, div_trunc_lem,
}
use elite_work.Base.Outcome.{Outcome, ok, ◌>>=◌}
use elite_work.Money.{
  MoneyError, DivisionResult, DustLedger, quotient, divide_with_policy, accrue, settle,
}
use elite_work.Money.Policy.{IsDivision, quotient-IsDivision}

-- A series of windows: the stroops paid in all, and the ledger behind the last one.
abbrev pub accrue_all : List ℤ → DustLedger → Outcome MoneyError (ℤ × DustLedger)
accrue_all [] l = ok (pos 0, l)
accrue_all (x ∷ xs) l = do
  (result, l') ← accrue x l
  (paid, l'') ← accrue_all xs l'
  ok (result.value +ℤ paid, l'')

abbrev pub total : List ℤ → ℤ
total [] = pos 0
total (x ∷ xs) = x +ℤ total xs

-- One window: the result, and the ledger that keeps its residual.
abbrev next : ℤ → DustLedger → DivisionResult
next x l = quotient (x +ℤ l.residual) l.denominator l.policy

accrue-next :
    (x : ℤ) (l : DustLedger) (d : ℕ)
    → l.denominator ≡ pos d
    → 0 < d
    → accrue x l ≡ ok (next x l, record l { residual = (next x l).residual })
unfolding accrue divide_with_policy
accrue-next x l d e h = rw e (ground arith)

window :
    (x rest carried value residual paid last d : ℤ)
    → x +ℤ carried ≡ value *ℤ d +ℤ residual
    → rest +ℤ residual ≡ paid *ℤ d +ℤ last
    → x +ℤ rest +ℤ carried ≡ (value +ℤ paid) *ℤ d +ℤ last
window x rest carried value residual paid last d p q =
    rw (add-mul value paid d) (omega (int_laws, parts_of_eq p, parts_of_eq q))

pub record IsCarried (xs : List ℤ) (l : DustLedger) (d : ℕ) : Type 0 where
  pub paid : ℤ
  pub last : DustLedger
  pub runs : accrue_all xs l ≡ ok (paid, last)
  pub conserved : total xs +ℤ l.residual ≡ paid *ℤ pos d +ℤ last.residual
  pub bounded : abs last.residual < d

-- With a positive denominator and a residual below it at the start, nothing is lost over any series
-- of windows: what was paid and the residual held account for exactly what was accrued and carried
-- in, and the residual stays below one stroop.
pub accrue_all-IsCarried :
    (xs : List ℤ) (l : DustLedger) (d : ℕ)
    → l.denominator ≡ pos d
    → 0 < d
    → abs l.residual < d
    → IsCarried xs l d
accrue_all-IsCarried [] l d e h small = record {
  paid = pos 0;
  last = l;
  runs = refl;
  conserved = omega (int_laws, *ℤ_parts);
  bounded = small;
}
accrue_all-IsCarried (x ∷ xs) l d e h small =
    let q = next x l in
    let made : IsDivision l.policy (x +ℤ l.residual) d q =
      rw e (quotient-IsDivision l.policy (x +ℤ l.residual) d h) in
    let rest = accrue_all-IsCarried xs (record l { residual = q.residual }) d e h made.small in
    record {
      paid = q.value +ℤ rest.paid;
      last = rest.last;
      runs = rw (accrue-next x l d e h, rest.runs) refl;
      conserved =
          window x (total xs) l.residual q.value q.residual rest.paid rest.last.residual (pos d)
            made.exact rest.conserved;
      bounded = rest.bounded;
    }

-- With a positive denominator, settling pays out the whole stroops held and leaves less than one
-- behind, losing nothing.
settle_lem :
    (l : DustLedger) (d : ℕ)
    → l.denominator ≡ pos d
    → 0 < d
    → let (whole, l') = settle l in
      (l.residual ≡ whole *ℤ pos d +ℤ l'.residual)
      × (abs l'.residual < d)
      × (l'.denominator ≡ l.denominator)
      × (l'.policy ≡ l.policy)
unfolding settle
settle_lem l d e h = rw e (omega int_laws, div_trunc_lem l.residual d h, refl, refl)
