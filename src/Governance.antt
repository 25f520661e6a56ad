-- ===== src/Governance.antt =====
-- packages/governance/src: the nine gates of a run, the manager that evaluates them, the table of
-- their decisions, and what is proved of them.
pub mod Numbers
pub mod Checks
pub mod Store
pub mod Sequence
pub mod Pauses
pub mod Order
pub mod Constraints
pub mod Consensus
pub mod Pipeline
pub mod Cleared
pub mod Permits
pub mod Decisions
mod Tests
mod PipelineTests
