-- ===== src/Execution/Machine.antt =====
-- The state that execution-engine.ts works on, and the monad of its functions: an exception leaves
-- what was written before it. The world of the adapters is a type `W` that only they read.
use code_kit_ultra.Base.{String, ℕ, List, Option, Bool}
use code_kit_ultra.Shared.{Bundle, RunState, StepLog, AdapterSummary, ExecutionRisk, Payload}

-- The actions of the events that the engine writes to the audit log.
pub data AuditAction : Type 0 where
  task_execution_attempt policy_block adapter_not_found approval_required : AuditAction
  validation_failed step_execution_started step_execution_succeeded : AuditAction
  step_execution_failed healing_applied_and_verified : AuditAction
  healing_attempted_but_escalated healing_engine_error rollback_completed : AuditAction
  optimizer_suggestions_applied run_completed step_retry_requested task_rollback_manual :
      AuditAction

pub record AuditEntry : Type 0 where
  pub action : AuditAction
  pub step_id : Option String

-- What `recordRunOutcome` is told.
pub record RunOutcome : Type 0 where
  pub success : Bool
  pub retry_count : ℕ
  pub adapters_used : List String

-- A write that the storage provider is asked for: of the state, of the log or of the summaries.
pub data Put : Type 0 where
  put_state : RunState → Put
  put_steps : List StepLog → Put
  put_executions : List AdapterSummary → Put

-- `saved` is what the writes of the run store have left in the run's directory, which `loadRunBundle`
-- reads, and `on_disk` whether the directory has the intake and the plan without which it answers null.
-- Each write also starts a `put` of the storage provider, for which the engine does not wait: `puts` are
-- those that were started, in their order. They are carried out at some later time, by the local
-- provider in the same directory; no load of the model comes upon one that has been carried out late.
pub record Machine (W : Type 0) : Type 0 where
  pub bundle : Bundle
  pub saved : Bundle
  pub on_disk : Bool
  pub puts : List Put
  pub audit : List AuditEntry
  pub outcomes : List RunOutcome
  pub world : W

-- `out_of_fuel` is no result of the code: the bound on the attempts of the model is used up.
pub data Result (A : Type 0) : Type 0 where
  returned : A → Result A
  threw : String → Result A
  out_of_fuel : Result A

abbrev pub M : Type 0 → Type 0 → Type 0
M W A = Machine W → Result A × Machine W

-- A call of an adapter's method: it may raise, and it may change the world.
pub data Reply (A : Type 0) : Type 0 where
  ok : A → Reply A
  raised : String → Reply A

abbrev pub Call : Type 0 → Type 0 → Type 0
Call W A = W → Reply A × W

abbrev pub settle : {A : Type 0} → Reply A → Result A
settle (ok a) = returned a
settle (raised e) = threw e

module _ {W A : Type 0} where
  abbrev pub pure : A → M W A
  pure a m = (returned a, m)

  abbrev pub throw : String → M W A
  throw e m = (threw e, m)

  abbrev pub gets : (Machine W → A) → M W A
  gets f m = (returned (f m), m)

  -- `await adapter.method(…)`
  abbrev pub call : Call W A → M W A
  call c m = let (r, w) = c m.world in (settle r, record m { world = w })

  -- The same inside a `try`: the exception is a value.
  abbrev pub try_call : Call W A → M W (Reply A)
  try_call c m = let (r, w) = c m.world in (returned r, record m { world = w })

module _ {W A B : Type 0} where
  abbrev pub continue : Result A → (A → M W B) → M W B
  continue (returned a) f m = f a m
  continue (threw e) f m = (threw e, m)
  continue out_of_fuel f m = (out_of_fuel, m)

  infixl 10 ◌>>=◌ ◌>>◌
  unfoldable pub ◌>>=◌ : M W A → (A → M W B) → M W B
  ◌>>=◌ c f m = let (r, m') = c m in continue r f m'

  abbrev pub ◌>>◌ : M W A → M W B → M W B
  c >> d = c >>= λ _. d

-- packages/adapters/src/base/provider-adapter.ts
pub record Simulation : Type 0 where
  pub summary : String
  pub risk : ExecutionRisk
  pub requires_approval : Bool

pub record Verification : Type 0 where
  pub ok : Bool
  pub summary : String

pub record ExecuteResult : Type 0 where
  pub success : Bool
  pub output : Option String
  pub error : Option String

pub record Adapter (W : Type 0) : Type 0 where
  pub id : String
  pub validate : Payload → Call W Bool
  pub simulate : Option (Payload → Call W Simulation)
  pub estimate_risk : Option (Payload → Call W ExecutionRisk)
  pub execute : Payload → Call W ExecuteResult
  pub verify : Option (Payload → ExecuteResult → Call W Verification)
  pub suggest_fix : Option (String → Payload → Call W String)
  pub rollback : Option (Payload → Call W (Unit {0}))

-- packages/shared/src/phase10_5-types.ts: what the engine reads of a `HealingAttempt`.
pub record HealingReply : Type 0 where
  pub verified : Bool
  pub approval_required : Bool
  pub strategy : String
