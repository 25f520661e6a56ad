-- ===== src/Actions.antt =====
-- packages/security/src/action-policy.ts and packages/orchestrator/src/action-runner.ts and
-- rollback-engine.ts: the assessment, the execution and the rollback of a batch of actions.
pub mod Policy
pub mod Runner
pub mod Rollback
pub mod Cleared
pub mod Dry
pub mod Reverts
mod Tests
