-- ===== src/Audit.antt =====
-- src/audit.rs: digests, timestamps and the audit trail.
pub mod Sha256
pub mod Digest
pub mod Clock
pub mod Calendar
pub mod Trail
pub mod Logged
mod Tests
