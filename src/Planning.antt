-- ===== src/Planning.antt =====
-- packages/orchestrator/src/intake.ts and planner.ts: the intake of an idea, the plan that it leads
-- to, and the tasks that a run starts with. `toLowerCase` and `path.join` are parameters.
mod Intake
mod Planner
mod Schedule
mod Blocking
mod Gated
mod Normal
mod Initial
mod Slug
mod Checkpoint
mod Categories
mod Tests
