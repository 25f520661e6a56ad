-- ===== src/Core.antt =====
-- packages/core/src: the policy that is asked about every task.
pub mod PolicyEngine
