-- ===== src/Automation.antt =====
-- apps/control-service/src/services: the services that act on their own.
pub mod Timers
mod Samples
pub mod Rollbacks
pub mod Healing
pub mod Acknowledgments
pub mod Orchestrator
pub mod AlertStore
pub mod Approvals
pub mod Verification
