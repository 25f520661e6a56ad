-- ===== src/Gates/Modes.antt =====
-- packages/orchestrator/src/mode-controller.ts: the policies of the modes and the trimming of the
-- clarifying questions.
use code_kit_ultra.Base.{
  String, ℕ, List, [], ◌∷◌, Option, none, some, Bool, true, false, ltb, take, if◌then◌else◌,
}
use code_kit_ultra.Shared.{Mode}

pub record GateThresholds : Type 0 where
  pub max_questions_before_review : ℕ
  pub max_questions_before_block : ℕ
  pub minimum_plan_tasks : ℕ
  pub minimum_selected_skills : ℕ
  pub ambiguity_review_threshold : ℕ
  pub ambiguity_block_threshold : ℕ

pub record ExecutionPolicy : Type 0 where
  pub auto_execute_safe_actions : Bool
  pub require_approval_for_medium_risk : Bool
  pub require_approval_for_high_risk : Bool
  pub allow_command_execution : Bool
  pub dry_run_by_default : Bool

pub record ModePolicy : Type 0 where
  pub mode : Mode
  pub label : String
  pub description : String
  pub max_clarifying_questions : ℕ
  pub gate_thresholds : GateThresholds
  pub execution : ExecutionPolicy

-- `MODE_POLICIES[mode]`
unfoldable pub get_mode_policy : Mode → ModePolicy
get_mode_policy Mode.turbo = record {
  mode = Mode.turbo;
  label = "Turbo";
  description = "High-speed autonomous build with minimal friction.";
  max_clarifying_questions = 2;
  gate_thresholds = record {
    max_questions_before_review = 99;
    max_questions_before_block = 15;
    minimum_plan_tasks = 3;
    minimum_selected_skills = 1;
    ambiguity_review_threshold = 10;
    ambiguity_block_threshold = 15;
  };
  execution = record {
    auto_execute_safe_actions = true;
    require_approval_for_medium_risk = false;
    require_approval_for_high_risk = true;
    allow_command_execution = true;
    dry_run_by_default = false;
  };
}
get_mode_policy Mode.builder = record {
  mode = Mode.builder;
  label = "Builder";
  description = "Structure-focused with partial automation and minimal approvals.";
  max_clarifying_questions = 5;
  gate_thresholds = record {
    max_questions_before_review = 5;
    max_questions_before_block = 10;
    minimum_plan_tasks = 5;
    minimum_selected_skills = 2;
    ambiguity_review_threshold = 4;
    ambiguity_block_threshold = 8;
  };
  execution = record {
    auto_execute_safe_actions = true;
    require_approval_for_medium_risk = true;
    require_approval_for_high_risk = true;
    allow_command_execution = true;
    dry_run_by_default = false;
  };
}
get_mode_policy Mode.pro = record {
  mode = Mode.pro;
  label = "Pro";
  description = "Controlled execution with mandatory approval checkpoints.";
  max_clarifying_questions = 8;
  gate_thresholds = record {
    max_questions_before_review = 3;
    max_questions_before_block = 8;
    minimum_plan_tasks = 6;
    minimum_selected_skills = 2;
    ambiguity_review_threshold = 2;
    ambiguity_block_threshold = 6;
  };
  execution = record {
    auto_execute_safe_actions = false;
    require_approval_for_medium_risk = true;
    require_approval_for_high_risk = true;
    allow_command_execution = true;
    dry_run_by_default = true;
  };
}
get_mode_policy Mode.expert = record {
  mode = Mode.expert;
  label = "Expert";
  description = "Manual orchestration with full deterministic control.";
  max_clarifying_questions = 15;
  gate_thresholds = record {
    max_questions_before_review = 1;
    max_questions_before_block = 5;
    minimum_plan_tasks = 8;
    minimum_selected_skills = 3;
    ambiguity_review_threshold = 1;
    ambiguity_block_threshold = 4;
  };
  execution = record {
    auto_execute_safe_actions = false;
    require_approval_for_medium_risk = true;
    require_approval_for_high_risk = true;
    allow_command_execution = true;
    dry_run_by_default = true;
  };
}
get_mode_policy Mode.safe = record {
  mode = Mode.safe;
  label = "Safe";
  description = "Maximum safety with mandatory human-in-the-loop for all changes.";
  max_clarifying_questions = 20;
  gate_thresholds = record {
    max_questions_before_review = 1;
    max_questions_before_block = 3;
    minimum_plan_tasks = 10;
    minimum_selected_skills = 3;
    ambiguity_review_threshold = 1;
    ambiguity_block_threshold = 2;
  };
  execution = record {
    auto_execute_safe_actions = false;
    require_approval_for_medium_risk = true;
    require_approval_for_high_risk = true;
    allow_command_execution = false;
    dry_run_by_default = true;
  };
}
get_mode_policy Mode.balanced = record {
  mode = Mode.balanced;
  label = "Balanced";
  description = "A balanced approach between automation and control.";
  max_clarifying_questions = 10;
  gate_thresholds = record {
    max_questions_before_review = 4;
    max_questions_before_block = 8;
    minimum_plan_tasks = 6;
    minimum_selected_skills = 2;
    ambiguity_review_threshold = 3;
    ambiguity_block_threshold = 6;
  };
  execution = record {
    auto_execute_safe_actions = true;
    require_approval_for_medium_risk = true;
    require_approval_for_high_risk = true;
    allow_command_execution = true;
    dry_run_by_default = true;
  };
}
get_mode_policy Mode.god = record {
  mode = Mode.god;
  label = "God";
  description = "Full autonomic operation with zero human intervention required.";
  max_clarifying_questions = 0;
  gate_thresholds = record {
    max_questions_before_review = 100;
    max_questions_before_block = 100;
    minimum_plan_tasks = 1;
    minimum_selected_skills = 0;
    ambiguity_review_threshold = 100;
    ambiguity_block_threshold = 100;
  };
  execution = record {
    auto_execute_safe_actions = true;
    require_approval_for_medium_risk = false;
    require_approval_for_high_risk = false;
    allow_command_execution = true;
    dry_run_by_default = false;
  };
}

pub data Priority : Type 0 where
  critical high medium low : Priority

-- What the sorting reads, and whether the question blocks, which it passes on.
pub record Question : Type 0 where
  pub id : String
  pub text : String
  pub priority : Option Priority
  pub required : Bool
  pub blocking : Bool

unfoldable pub weight_of : Option Priority → ℕ
weight_of (some Priority.critical) = 90
weight_of (some Priority.high) = 70
weight_of (some Priority.medium) = 50
weight_of (some Priority.low) = 30
weight_of none = 40

unfoldable pub priority_weight : Question → ℕ
priority_weight q = if q.required then 100 else weight_of q.priority

-- The stable sort by descending weight.
unfoldable pub insert : Question → List Question → List Question
insert q [] = q ∷ []
insert q (r ∷ rs) =
    let rest = insert q rs in
    if ltb (priority_weight q) (priority_weight r) then r ∷ rest else q ∷ r ∷ rs

unfoldable pub sort : List Question → List Question
sort [] = []
sort (q ∷ qs) = insert q (sort qs)

unfoldable pub trim_questions_by_mode : List Question → Mode → List Question
trim_questions_by_mode qs mode = take (get_mode_policy mode).max_clarifying_questions (sort qs)
