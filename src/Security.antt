-- ===== src/Security.antt =====
-- internal/security.
pub mod Types
pub mod Actor
pub mod Digest
pub mod Auth
pub mod Plan
pub mod Cache
pub mod Grants
pub mod Redact
pub mod Audit
