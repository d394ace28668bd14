-- ===== src/Security/Audit/Integrity.antt =====
-- AuditStore.Integrity.
use quantum_control.Prelude.{ℕ, Bool, true}
use quantum_control.Text.{Text}
use quantum_control.Security.Types.{audit_schema}
use quantum_control.Security.Audit.{AuditStore}

-- The map that Integrity returns.
pub record AuditIntegrity : Type 0 where
  pub schema : Text
  pub records : ℕ
  pub head_hash : Text
  pub verified : Bool

abbrev pub integrity : AuditStore → AuditIntegrity
integrity store = record {
  schema = audit_schema;
  records = store.sequence;
  head_hash = store.last_hash;
  verified = true;
}
