-- ===== src/Governance/PipelineTests.antt =====
-- Runs of the governed pipeline, with numbers in hundredths.
use Prim.Native.Nat.{◌/◌}
use code_kit_ultra.Base.{
  ℕ, ◌+◌, ◌-◌, ◌*◌, ◌≡◌, refl, ◌⊎◌, List, [], ◌∷◌, some, none, true, false, or_default, ltb, ◌==◌,
  if◌then◌else◌,
}
use code_kit_ultra.Actions.Policy.{BuilderActionBatch, Phase, create_dir}
use code_kit_ultra.Governance.Constraints.{
  ConstraintPolicy, evaluate_constraints, limit_violations, batch_violations, action_violations,
  path_violation, pattern_violations, report_if, exceeds, type_name, action_path, action_command,
  has_text, path_allowed,
}
use code_kit_ultra.Governance.Consensus.{
  Arithmetic, AgentVote, low, approve, builder, reviewer, run_adaptive_consensus, resolve_profiles,
  default_agent_profiles, default_adaptive_policy, tally, add_vote, add_score, profile_of,
  same_agent, same_risk, is_reject, is_approve, threshold_for_risk, vetoes_at, has_veto, is_veto,
  check_veto, at_least, clamp01, factor, get_effective_weight, share, normalize_scores, decide,
}
use code_kit_ultra.Governance.Pipeline.{
  Texts, distinct, action_reason, action_subject, action_text, join_after, tokenize, is_blank,
  validate_batch, verify_intent, score_consensus, score_execution, evaluate_kill_switch,
  is_high_risk, run_governed_autonomy,
}
use code_kit_ultra.Governance.Cleared.{IsClear, IsSignalled, governed-IsClear}

abbrev digits : ℕ → ℕ → ℕ
digits n k = if k == 1 then n * 10 else n

abbrev hundredths : Arithmetic ℕ
hundredths = record {
  numbers = record { lt = ltb; eq = ◌==◌; whole = λ n. n * 100; is_falsy = λ n. n == 0 };
  add = λ x y. x + y;
  sub = λ x y. x - y;
  mul = λ x y. x * y / 100;
  div = λ x y. x * 100 / y;
  max = λ x y. if ltb x y then y else x;
  min = λ x y. if ltb x y then x else y;
  literal = digits;
  to_fixed = λ x. x;
}

abbrev texts : Texts
texts = record { words = λ t. t ∷ []; trim = λ t. t; test = λ p t. false }

abbrev batch : BuilderActionBatch
batch = record {
  run_id = "run";
  phase = Phase.build;
  generated_by = "builder";
  summary = "api";
  actions = create_dir "src" (some "sources") ∷ [];
}

abbrev no_constraints : ConstraintPolicy
no_constraints = record {
  allowed_paths = none;
  blocked_paths = none;
  blocked_action_types = none;
  blocked_command_patterns = none;
  max_files_changed = none;
  max_commands = none;
  max_actions = none;
}

abbrev votes : List (AgentVote ℕ)
votes =
    record { agent = builder; decision = approve; confidence = 90 }
    ∷ record { agent = reviewer; decision = approve; confidence = 80 }
    ∷ []

batch_allowed :
    (run_governed_autonomy hundredths texts "api" batch no_constraints votes
      (some low)
      none
      []).allowed
    ≡ true
unfolding run_governed_autonomy verify_intent tokenize distinct action_text action_subject
    action_reason join_after validate_batch is_blank evaluate_constraints limit_violations
    batch_violations action_violations path_violation pattern_violations report_if exceeds type_name
    action_path action_command has_text path_allowed run_adaptive_consensus resolve_profiles
    default_agent_profiles default_adaptive_policy tally add_vote add_score profile_of same_agent
    same_risk is_reject is_approve threshold_for_risk vetoes_at has_veto is_veto check_veto at_least
    clamp01 factor get_effective_weight share normalize_scores decide score_consensus
    score_execution evaluate_kill_switch is_high_risk
batch_allowed = refl

governed-IsClear_example :
    IsClear hundredths
      (or_default none (hundredths.literal 7 1))
      (run_governed_autonomy hundredths texts "api" batch no_constraints votes (some low) none [])
    ⊎ IsSignalled []
governed-IsClear_example =
    governed-IsClear hundredths texts "api" batch no_constraints votes (some low) none []
      batch_allowed
