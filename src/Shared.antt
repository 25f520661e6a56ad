-- ===== src/Shared.antt =====
-- packages/shared/src/types.ts: the types that the packages share.
use code_kit_ultra.Base.{String, ℕ, List, Option, Bool}

pub data Mode : Type 0 where
  turbo builder pro expert safe balanced god : Mode

pub data RunStatus : Type 0 where
  planned running paused completed failed cancelled : RunStatus

pub data StepStatus : Type 0 where
  pending running success failed paused skipped rolled_back : StepStatus

pub data ExecutionRisk : Type 0 where
  low medium high : ExecutionRisk

pub data GateStatus : Type 0 where
  pass fail needs_review blocked pending : GateStatus

-- `Record<string, unknown>`, each value by the text that `String(value)` gives.
abbrev pub Payload : Type 0
Payload = List (String × String)

-- The fields that the engine reads.
pub record PlanTask : Type 0 where
  pub id : String
  pub title : String
  pub adapter_id : String
  pub payload : Payload
  pub requires_approval : Bool
  pub max_attempts : Option ℕ
  pub rollback_payload : Option Payload

pub record StepLog : Type 0 where
  pub step_id : String
  pub title : String
  pub adapter : String
  pub attempt : ℕ
  pub status : StepStatus
  pub output : Option String
  pub error : Option String
  pub rollback_available : Bool
  pub risk : Option ExecutionRisk
  pub simulation_summary : Option String
  pub verified : Option Bool
  pub verification_summary : Option String
  pub fix_suggestion : Option String

pub record AdapterSummary : Type 0 where
  pub task_id : String
  pub adapter : String
  pub status : StepStatus
  pub attempts : ℕ
  pub output : String

pub record RunState : Type 0 where
  pub run_id : String
  pub current_step_index : ℕ
  pub status : RunStatus
  pub pause_reason : Option String
  pub approval_required : Bool
  pub approved : Bool

-- `RunBundle`, without the parts that the engine does not touch.
pub record Bundle : Type 0 where
  pub state : RunState
  pub tasks : List PlanTask
  pub executions : List AdapterSummary
  pub steps : List StepLog
