-- ===== src/Execution.antt =====
-- packages/orchestrator/src/execution-engine.ts and resume-run.ts. The children: the machine and its
-- monad, the primitive writes, one task, the whole run, and what is proved of them.
pub mod Machine
pub mod Writes
pub mod Attempt
pub mod Task
pub mod Run
pub mod Keeps
mod Puts
pub mod Durable
pub mod History
mod Cases
pub mod Ends
pub mod RunEnds
pub mod Approval
pub mod OneApproval
pub mod Termination
pub mod Endless
pub mod Tests
