-- ===== src/Permissions.antt =====
-- packages/policy/src: the permissions that roles give.
pub mod Resolve
pub mod Granted
mod Tests
