-- ===== src/Audit.antt =====
-- internal/audit: what is stored of a transaction.
pub mod Redact
pub mod Entry
pub mod Writer
pub mod Store
pub mod Stats
