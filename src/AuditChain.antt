-- ===== src/AuditChain.antt =====
-- backend/src/lib/auditChain.ts, the middleware of backend/src/lib/db.ts that chains audit rows, and
-- `verifyChain` of backend/src/services/adminAudit.service.ts. The hash of an entry behind a hash
-- (SHA-256 of its canonical JSON) is a parameter. The table is the list of its rows in the order of
-- their ids; the database numbers the rows.
pub mod Tampering
use text.Mathlib.Text.{◌==◌ as str_eq}
use elite_work.Base.{
  ℕ, ◌+◌, ◌≡◌, String, Bool, true, false, ◌&&◌, Option, none, some, List, [], ◌∷◌, ◌++◌,
}
use elite_work.Base.Tests.{if◌then◌else◌, get_or_else, is_none}
use elite_work.Base.Lists.{last}

-- The fields that are hashed.
pub record AuditChainEntryInput : Type 0 where
  pub action : String
  pub actor_address : String
  pub target_reference : Option String
  pub note : Option String
  pub created_at : ℕ

pub record AuditRow : Type 0 where
  pub id : ℕ
  pub entry : AuditChainEntryInput
  pub prev_hash : String
  pub hash : String

-- What `verifyChain` has found so far.
pub record Progress : Type 0 where
  pub expected_prev_hash : String
  pub entries_checked : ℕ
  pub broken_at_id : Option ℕ
  pub checkpoint : Option String

pub record AuditChainVerificationResult : Type 0 where
  pub valid : Bool
  pub entries_checked : ℕ
  pub broken_at_id : Option ℕ
  pub checkpoint : Option String

abbrev pub start : Progress
start = record {
  expected_prev_hash = "";
  entries_checked = 0;
  broken_at_id = none;
  checkpoint = none;
}

-- `last?.hash ?? ""`
abbrev pub last_hash : List AuditRow → String
last_hash rows = elim (last rows) [ none ↦ "" | some row ↦ row.hash ]

module _ (compute_audit_entry_hash : (prev_hash : String) → AuditChainEntryInput → String) where
  -- The row that the middleware makes of an entry.
  abbrev pub chained_row : (id : ℕ) (prev_hash : String) → AuditChainEntryInput → AuditRow
  chained_row id prev_hash entry = record {
    id = id;
    entry = entry;
    prev_hash = prev_hash;
    hash = compute_audit_entry_hash prev_hash entry;
  }

  unfoldable pub create_audit : (id : ℕ) → AuditChainEntryInput → List AuditRow → List AuditRow
  create_audit id entry rows = rows ++ chained_row id (last_hash rows) entry ∷ []

  -- `row.prevHash !== expectedPrevHash || row.hash !== recomputed`, the other way round
  abbrev pub is_intact : (expected : String) → AuditRow → Bool
  is_intact expected row =
      str_eq row.prev_hash expected && str_eq row.hash (compute_audit_entry_hash expected row.entry)

  -- A round of the loop.
  unfoldable pub verify_row : AuditRow → Progress → Progress
  verify_row row p = if str_eq row.hash "" then p else record {
    expected_prev_hash = row.hash;
    entries_checked = p.entries_checked + 1;
    broken_at_id =
        if is_intact p.expected_prev_hash row
        then p.broken_at_id
        else some (get_or_else p.broken_at_id row.id);
    checkpoint = some row.hash;
  }

  unfoldable pub verify_rows : List AuditRow → Progress → Progress
  unfolding verify_row
  verify_rows [] p = p
  verify_rows (row ∷ rows) p = verify_rows rows (verify_row row p)

  unfoldable pub verify_chain : List AuditRow → AuditChainVerificationResult
  unfolding verify_rows
  verify_chain rows =
      let p = verify_rows rows start in
      record {
        valid = is_none p.broken_at_id;
        entries_checked = p.entries_checked;
        broken_at_id = p.broken_at_id;
        checkpoint = p.checkpoint;
      }
