-- ===== src/Gates.antt =====
-- packages/orchestrator/src/mode-controller.ts and gate-manager.ts: the policies of the modes, the gates before a run, and
-- what is proved of them.
pub mod Modes
pub mod Manager
pub mod Overall
pub mod Trim
mod Tests
