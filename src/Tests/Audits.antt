-- ===== src/Tests/Audits.antt =====
-- An audit table of three rows.
use Prim.Native.String
use Prim.Native.String.{char_at}
use text.Mathlib.Text.{◌==◌ as str_eq}
use text.Mathlib.TextEquality.{eq_iff}
use elite_work.Base.{
  ℕ, suc, ◌≡◌, ◌≢◌, inl, inr, refl, sym, ap, String, true, false, none, [], ◌∷◌, ◌++◌, arith,
}
use elite_work.Base.Tests.{Bool-cases}
use elite_work.AuditChain.{AuditChainEntryInput, AuditRow, chained_row, verify_chain, create_audit}
use elite_work.AuditChain.Tampering.{edited-verify, written}

-- A hash that is a mark and the action.
abbrev hash_of : String → AuditChainEntryInput → String
hash_of prev entry = String.◌∷◌ (char_at "x" 0) entry.action

abbrev measure : String.String → ℕ
measure String.[] = 0
measure (String.◌∷◌ c s) = suc (measure s)

nonempty : (prev : String) (entry : AuditChainEntryInput) → str_eq (hash_of prev entry) "" ≡ false
nonempty prev entry = elim (Bool-cases (str_eq (hash_of prev entry) "")) [
  | inl hit ↦
      let same : suc (measure entry.action) ≡ 0 =
        ap measure ((eq_iff (hash_of prev entry) "").0 hit) in
      absurd (omega (arith, same))
  | inr miss ↦ miss
]

abbrev entry : (action : String) → AuditChainEntryInput
entry action = record {
  action = action;
  actor_address = "GADMIN";
  target_reference = none;
  note = none;
  created_at = 5;
}

abbrev first : AuditRow
first = chained_row hash_of 1 "" (entry "LOCK")

abbrev second : AuditRow
second = chained_row hash_of 2 "xLOCK" (entry "TERMINATE")

abbrev third : AuditRow
third = chained_row hash_of 3 "xTERMINATE" (entry "UNLOCK")

writes :
    written hash_of nonempty
      ((1, entry "LOCK") ∷ (2, entry "TERMINATE") ∷ (3, entry "UNLOCK") ∷ [])
      []
    ≡ (first ∷ []) ++ second ∷ third ∷ []
unfolding create_audit
writes = refl

other_hash : hash_of "xLOCK" (entry "SUSPEND") ≢ second.hash
other_hash same = no_match (sym ((eq_iff "xSUSPEND" "xTERMINATE").1 same))
  where
    no_match : true ≡ false → ⊥
    no_match h = cc

edited-verify_example :
    (verify_chain hash_of
      ((first ∷ []) ++ record second { entry = entry "SUSPEND" } ∷ third ∷ [])).valid
    ≡ false
edited-verify_example =
    edited-verify hash_of nonempty
      ((1, entry "LOCK") ∷ (2, entry "TERMINATE") ∷ (3, entry "UNLOCK") ∷ []) (first ∷ []) second
      (third ∷ []) (entry "SUSPEND") writes other_hash
