-- ===== src/Audit.antt =====
-- packages/core/src/audit-logger.ts and packages/audit/src/write-audit-event.ts: the audit logs of
-- the runs, the global stream, and their chains of hashes.
pub mod Log
pub mod Chain
mod Tests
