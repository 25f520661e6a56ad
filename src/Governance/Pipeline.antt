-- ===== src/Governance/Pipeline.antt =====
-- packages/governance/src: governed-pipeline.ts and what it calls: intent-engine.ts,
-- validation-engine.ts, confidence-engine.ts, kill-switch.ts and the waiting of gate-controller.ts.
-- The functions on texts are parameters; notes, messages and the file of an approval are left out.
use Prim.Native.String
use code_kit_ultra.Base.{
  String, List, [], ◌∷◌, map, Option, none, some, Bool, true, false, not, ◌&&◌, ◌||◌, all, select,
  length, includes, or_default, same, codes, ltb, if◌then◌else◌,
}
use code_kit_ultra.Actions.Policy.{
  BuilderAction, write_file, append_file, create_dir, run_command, BuilderActionBatch,
}
use code_kit_ultra.Governance.Constraints.{ConstraintPolicy, ConstraintResult, evaluate_constraints}
use code_kit_ultra.Governance.Consensus.{
  Arithmetic, RiskLevel, medium, high, SpecialistDecision, approve, needs_review, reject, AgentVote,
  AdaptiveConsensusResult, is_reject, same_risk, run_adaptive_consensus,
}

-- `words` is `toLowerCase`, the replacement of the other characters and the split at the blanks, `trim`
-- is `trim`, and `test` whether a case-insensitive regular expression is found in a text.
pub record Texts : Type 0 where
  pub words : String → List String
  pub trim : String → String
  pub test : String → String → Bool

-- `new Set(xs)`: the first of each stands.
unfoldable pub distinct : List String → List String → List String
distinct seen [] = []
distinct seen (x ∷ xs) =
    let rest = distinct (x ∷ seen) xs in
    let others = distinct seen xs in if includes x seen then others else x ∷ rest

unfoldable pub action_reason : BuilderAction → Option String
action_reason (write_file path content reason) = reason
action_reason (append_file path content reason) = reason
action_reason (create_dir path reason) = reason
action_reason (run_command line cwd reason) = reason

unfoldable pub action_subject : BuilderAction → String
action_subject (write_file path content reason) = path
action_subject (append_file path content reason) = path
action_subject (create_dir path reason) = path
action_subject (run_command line cwd reason) = line

unfoldable pub action_text : BuilderAction → String
action_text a = String.◌++◌ (action_subject a) (String.◌++◌ " " (or_default (action_reason a) ""))

-- `xs.join(" ")`, after a text
unfoldable pub join_after : String → List String → String
join_after text [] = text
join_after text (x ∷ xs) = join_after (String.◌++◌ text (String.◌++◌ " " x)) xs

pub record ValidationResult : Type 0 where
  pub non_empty_actions : Bool
  pub summary_present : Bool
  pub all_actions_have_reason : Bool
  pub run_id_present : Bool
  pub valid : Bool

pub data KillCode : Type 0 where
  constraint_violation consensus_rejected low_confidence clear : KillCode

pub record KillSwitchResult : Type 0 where
  pub blocked : Bool
  pub reason : KillCode

-- What a poll of `waitForApproval` finds: the signal of an approval, and that of a rejection.
pub record Poll : Type 0 where
  pub is_approved : Bool
  pub is_rejected : Bool

-- The polls within the timeout; none of them finding a signal is the timeout.
unfoldable pub wait_for_approval : List Poll → Bool
wait_for_approval [] = false
wait_for_approval (p ∷ ps) =
    if p.is_approved then true else if p.is_rejected then false else wait_for_approval ps

module _ (texts : Texts) where
  unfoldable pub tokenize : String → List String
  tokenize text = select (λ t. ltb 3 (length (codes t))) (distinct [] (texts.words text))

  unfoldable pub is_blank : Option String → Bool
  is_blank none = true
  is_blank (some t) = same (texts.trim t) ""

  unfoldable pub validate_batch : BuilderActionBatch → ValidationResult
  validate_batch batch =
      let filled = ltb 0 (length batch.actions) in
      let titled = not (is_blank (some batch.summary)) in
      let reasoned = all (λ a. not (is_blank (action_reason a))) batch.actions in
      let named = not (is_blank (some batch.run_id)) in
      record {
        non_empty_actions = filled;
        summary_present = titled;
        all_actions_have_reason = reasoned;
        run_id_present = named;
        valid = filled && titled && reasoned && named;
      }

pub record IntentVerificationResult (N : Type 0) : Type 0 where
  pub valid : Bool
  pub confidence : N
  pub drift_detected : Bool
  pub matched_keywords : List String
  pub missing_keywords : List String

pub record ConfidenceScore (N : Type 0) : Type 0 where
  pub overall : N
  pub alignment_score : N
  pub validation_score : N
  pub policy_score : N
  pub consensus_score : N

pub record GovernedResult (N : Type 0) : Type 0 where
  pub intent : IntentVerificationResult N
  pub validation : ValidationResult
  pub constraints : ConstraintResult
  pub consensus : AdaptiveConsensusResult N
  pub confidence : ConfidenceScore N
  pub kill_switch : KillSwitchResult
  pub allowed : Bool
  pub manual_approval_given : Bool

module _ {N : Type 0} (a : Arithmetic N) where
  unfoldable pub verify_intent : Texts → String → BuilderActionBatch → IntentVerificationResult N
  verify_intent texts idea batch =
      let idea_tokens = tokenize texts idea in
      let batch_tokens =
        tokenize texts (join_after batch.summary (map action_text batch.actions)) in
      let matched = select (λ t. includes t batch_tokens) idea_tokens in
      let coverage =
        if ltb 0 (length idea_tokens)
        then a.div (a.numbers.whole (length matched)) (a.numbers.whole (length idea_tokens))
        else a.numbers.whole 1 in
      let drift = a.numbers.lt coverage (a.literal 35 2) in
      record {
        valid = not drift;
        confidence = a.to_fixed coverage;
        drift_detected = drift;
        matched_keywords = matched;
        missing_keywords = select (λ t. not (includes t batch_tokens)) idea_tokens;
      }

  -- confidence-engine.ts, lines 23 to 28; "needs-review" stands for "revise".
  unfoldable pub score_consensus : SpecialistDecision → N → N
  score_consensus approve agreement = agreement
  score_consensus needs_review agreement = a.mul agreement (a.literal 6 1)
  score_consensus reject agreement = a.literal 1 1

  unfoldable pub score_execution :
      IntentVerificationResult N
      → ValidationResult
      → ConstraintResult
      → AdaptiveConsensusResult N
      → ConfidenceScore N
  score_execution intent validation constraints consensus =
      let alignment = intent.confidence in
      let valid_score = if validation.valid then a.numbers.whole 1 else a.literal 4 1 in
      let policy_score = if constraints.valid then a.numbers.whole 1 else a.literal 2 1 in
      let agreement = score_consensus consensus.final_decision consensus.scores.approval in
      record {
        overall = a.to_fixed (
            a.add
              (a.add (a.add (a.mul alignment (a.literal 35 2)) (a.mul valid_score (a.literal 2 1)))
                (a.mul policy_score (a.literal 25 2)))
              (a.mul agreement (a.literal 2 1)));
        alignment_score = alignment;
        validation_score = valid_score;
        policy_score = policy_score;
        consensus_score = agreement;
      }

  unfoldable pub evaluate_kill_switch :
      ConfidenceScore N → ConstraintResult → SpecialistDecision → Option N → KillSwitchResult
  evaluate_kill_switch confidence constraints decision threshold =
      if not constraints.valid
      then record { blocked = true; reason = constraint_violation }
      else if is_reject decision
      then record { blocked = true; reason = consensus_rejected }
      else if a.numbers.lt confidence.overall (or_default threshold (a.literal 7 1))
      then record { blocked = true; reason = low_confidence }
      else record { blocked = false; reason = clear }

  unfoldable pub is_high_risk : Option RiskLevel → Bool
  is_high_risk none = false
  is_high_risk (some r) = same_risk r high

  unfoldable pub run_governed_autonomy :
      Texts
      → String
      → BuilderActionBatch
      → ConstraintPolicy
      → List (AgentVote N)
      → Option RiskLevel
      → Option N
      → List Poll
      → GovernedResult N
  run_governed_autonomy texts idea batch policy votes risk threshold polls =
      let intent = verify_intent texts idea batch in
      let validation = validate_batch texts batch in
      let constraints = evaluate_constraints texts.test batch.actions policy in
      let consensus = run_adaptive_consensus a (or_default risk medium) votes [] in
      let confidence = score_execution intent validation constraints consensus in
      let kill = evaluate_kill_switch confidence constraints consensus.final_decision threshold in
      let gated = consensus.should_pause || is_high_risk risk in
      let manual = if gated then wait_for_approval polls else false in
      record {
        intent = intent;
        validation = validation;
        constraints = constraints;
        consensus = consensus;
        confidence = confidence;
        kill_switch = kill;
        allowed = if gated then manual else not kill.blocked;
        manual_approval_given = manual;
      }
