-- ===== src/Lib.antt =====
-- Code Kit Ultra: a library that plans, gates, executes and heals runs of an AI-assisted build.
--
-- A run is a bundle of files: the intake, the plan of tasks, a log of steps and a state. Gates decide
-- before a run whether it may start; the execution engine then takes the tasks one after the other
-- through the policy, the adapter's simulation, the approval, the validation and the attempts, and
-- writes the bundle back after each change; a governance layer evaluates its own gates and keeps the
-- decisions in a table that reviewers override; batches of actions that agents propose are assessed,
-- executed and rolled back. A control service watches the metrics of what is deployed, and
-- acknowledges alerts, heals, rolls deployments back and approves gates on its own.
--
-- The files and what they model:
--   Base, Base/*: tests, texts, the methods of strings, lists, maps and the predicates on lists that
--     the others share.
--   Shared: packages/shared/src/types.ts.
--   Core/PolicyEngine: packages/core/src/policy-engine.ts (evaluatePolicy and the merge of rules).
--   Execution/*: packages/orchestrator/src/execution-engine.ts and resume-run.ts, with
--     optimizeTasks of packages/learning/src/execution-optimizer.ts and recordRunOutcome of
--     packages/orchestrator/src/outcome-engine.ts. Machine holds the state and the monad, Writes the
--     writes (markState, pushStepLog, upsertAdapterSummary), Attempt and Task the function
--     executeTask, Run the functions executeRunBundle, retryTask, rollbackTask and resumeRun. Keeps
--     carries an invariant through all of them; Durable, History, Ends, RunEnds, Approval,
--     OneApproval, Termination and Endless hold the theorems; Puts says what the writes of the storage
--     provider, which nothing waits for, leave behind.
--   Gates/*: packages/orchestrator/src/mode-controller.ts (Modes) and gate-manager.ts (Manager);
--     Overall and Trim hold the theorems.
--   Planning/*: packages/orchestrator/src/intake.ts (Intake) and planner.ts (Planner: buildPlan;
--     Initial: buildInitialPlan). Gated puts the intake, the plan and the gates together as
--     phase-engine.ts does, Checkpoint the initial plan and the execution engine; Schedule, Blocking,
--     Categories, Normal and Slug hold further theorems.
--   Repair/*: packages/healing/src, whose answer the execution engine takes: failure-classifier.ts and
--     healing-strategy-registry.ts (Strategies); healing-engine.ts, healing-store.ts, revalidation.ts,
--     and packages/orchestrator/src/healing-integration.ts (Engine). Applied, Verified,
--     Recorded, Ends and Endless hold the theorems; the last two put the engine of the runs and the
--     repairs together.
--   Phases/*: packages/orchestrator/src/phase-engine.ts and run-vertical-slice.ts, the phases of a
--     run over an interface of the skills, the gates, the execution and the recording, any of which but
--     the gates may throw; Finish holds the theorem. The loop over
--     the phases has a bound on its steps, and Finish says which is enough.
--   Governance/*: packages/governance/src/gates (Checks), gate-store.ts (Store) and gate-manager.ts
--     (Sequence), constraint-engine.ts (Constraints), adaptive-consensus.ts (Consensus), and
--     governed-pipeline.ts with the engines that it calls (Pipeline); Order, Pauses, Decisions,
--     Permits and Cleared hold the theorems.
--   Actions/*: packages/security/src/action-policy.ts (Policy), packages/orchestrator/src/
--     action-runner.ts (Runner) and rollback-engine.ts (Rollback); Cleared, Dry and Reverts hold the
--     theorems.
--   Audit/*: packages/core/src/audit-logger.ts and packages/audit/src/write-audit-event.ts (Log);
--     Chain holds the theorems. The engine's machine keeps only the action and the step of an event.
--   Memory/*: packages/memory/src/run-store.ts: the values of a JSON file and how they are read
--     (Values), the memory of the project (Project) and the files of a run (Bundles), with the put of
--     packages/storage/src/local-storage.ts; Entries, Loads, Finds, Tidy and Latest hold the theorems.
--   Permissions/*: packages/policy/src/role-mapping.ts and resolve-permissions.ts (Resolve); Granted
--     holds the theorems.
--   Automation/*: apps/control-service/src/services: rollback-automation.ts (Rollbacks),
--     healing-engine.ts (Healing), alert-acknowledgment-service.ts (Acknowledgments), alert-store.ts
--     (AlertStore, with Abstract, what such a store promises), auto-approval-engine.ts (Approvals),
--     test-verification-service.ts (Verification), and automation-orchestrator.ts (Orchestrator), which runs the first three in cycles. Timers
--     holds what they share. Their children hold the default strategies and rules (Defaults) and the
--     theorems.
--
-- How the engine is modelled: one run is a Machine: the bundle in memory, the bundle that the run's
-- directory holds, the audit log, the reported outcomes, and a world that only the adapters and the
-- healing service read. A function of the engine is a state-passing function that returns, throws,
-- or runs out of fuel; what was written before an exception stays written. Adapters and the healing
-- service are parameters: each call answers a value or an error and a new world. Repair/Engine has
-- the healing service of the repository, over a world of its logs, its statistics and the files.
-- Fuel bounds the attempts of one task only, since the retry limit grows with each verified healing;
-- which fuel is enough is the subject of Termination, and of Repair/Ends for that service, and where
-- none is, of Endless. The puts of the storage provider that the writes start are kept in a list, in the order in
-- which they start; a load reads what the writes of the run store have left.
--
-- How the automation is modelled: each service is a record of its maps, and a method a function from
-- the record to its result and the new record. The clock is an argument of each method, in
-- milliseconds; a cycle has ended before the next one begins. A timer fires when it is due, so that
-- an action is in time exactly if its delay is not above its timeout. The orchestrator's intervals
-- are the numbers of the timers that run.
--
-- What is left out: timestamps, generated ids, the tenant and actor fields that are copied into
-- audit events, the details of those events, and messages to the user where nothing depends on
-- them. Payload values stand by their text. Local file operations are taken not to fail, but for those of a rollback; the table
-- of decisions stands in the order of its creation, and a build without a status counts as one of
-- an unknown status. JavaScript's numbers are an interface (Governance/Numbers); the regular
-- expressions' engine, Node's path functions, the file system and the shell are parameters of the
-- runner and of the constraints, and the hash is a parameter of the audit logs, and toLowerCase
-- one of the permissions, the planning and the repairs. The arithmetic of the consensus is an
-- interface too (Governance/Consensus). The automation's logs, its summaries in floating point,
-- and the results of its simulated actions are left out.
-- The rest of the repository (the command line, the control service's handlers, the database of runs,
-- the web applications, the prompt system, authentication, learning, observability, storage) is not
-- modelled.
pub mod Actions
pub mod Audit
pub mod Automation
pub mod Base
pub mod Core
pub mod Execution
pub mod Gates
pub mod Governance
pub mod Memory
pub mod Permissions
pub mod Phases
pub mod Planning
pub mod Repair
pub mod Shared
