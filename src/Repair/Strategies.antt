-- ===== src/Repair/Strategies.antt =====
-- failure-classifier.ts and healing-strategy-registry.ts.
use Prim.Native.String.{String, ◌++◌ as ◌<>◌}
use code_kit_ultra.Base.{
  ℕ, List, [], ◌∷◌, Bool, true, false, ◌&&◌, ◌||◌, same, any, contains, select, lookup, or_default,
  if◌then◌else◌,
}
use code_kit_ultra.Shared.{Payload}

pub data HealingRisk : Type 0 where
  low medium high : HealingRisk

-- The confidence is in hundredths.
pub record FailureClassification : Type 0 where
  pub failure_type : String
  pub confidence : ℕ
  pub reason : String

pub record HealingContext : Type 0 where
  pub run_id : String
  pub step_id : String
  pub adapter_id : String
  pub error_message : String
  pub payload : Payload

pub record HealingResult : Type 0 where
  pub success : Bool
  pub changed_resources : List String
  pub notes : String
  pub requires_retry : Bool
  pub requires_reverification : Bool

-- Without the texts for the user, and `maxAttempts`, which nothing reads.
pub record HealingStrategy (W : Type 0) : Type 0 where
  pub id : String
  pub failure_type : String
  pub adapter_id : String
  pub risk : HealingRisk
  pub auto_apply : Bool
  pub apply : HealingContext → W → HealingResult × W

-- What the strategies use of Node. The file operations are taken not to fail.
pub record Files (W : Type 0) : Type 0 where
  pub dirname : String → String
  pub normalize : String → String
  pub mkdir : String → W → W
  pub exists_sync : String → W → Bool

abbrev classified : String → ℕ → String → FailureClassification
classified failure_type confidence reason = record {
  failure_type = failure_type;
  confidence = confidence;
  reason = reason;
}

unfoldable pub classify_text : String → String → FailureClassification
classify_text lower adapter =
    let says = λ (words : List String). any (contains lower) words in
    if says ("enoent" ∷ "no such file" ∷ "path not found" ∷ [])
    then classified "path-not-found" 92 "Missing path or file detected."
    else if says ("permission denied" ∷ "eacces" ∷ [])
    then classified "permission-denied" 90 "Permission failure detected."
    else if says ("not allowed" ∷ "blocked by policy" ∷ [])
    then classified "policy-blocked" 88 "Policy restriction detected."
    else if same adapter "github" && says ("auth" ∷ "token" ∷ "unauthorized" ∷ [])
    then classified "git-auth-failed" 87 "GitHub authentication issue detected."
    else if same adapter "github" && says ("branch" ∷ "diverged" ∷ [])
    then classified "branch-diverged" 81 "Git branch state issue detected."
    else if says ("verify" ∷ "verification failed" ∷ [])
    then classified "verification-failed" 80 "Post-execution verification failure detected."
    else if says ("timeout" ∷ "network" ∷ [])
    then classified "network-transient" 76 "Transient network-like failure detected."
    else classified "unknown-failure" 45
        ("No canonical mapping found for adapter " <> adapter <> ".")

unfoldable pub classify_failure : (String → String) → String → String → FailureClassification
classify_failure to_lower_case message adapter = classify_text (to_lower_case message) adapter

abbrev pub target_of : HealingContext → String
target_of c = or_default (lookup "path" c.payload) ""

abbrev repaired : List String → String → Bool → HealingResult
repaired changed notes again = record {
  success = true;
  changed_resources = changed;
  notes = notes;
  requires_retry = again;
  requires_reverification = again;
}

module _ {W : Type 0} where
  abbrev pub strategy :
      String → String → String → Bool → (HealingContext → W → HealingResult × W) → HealingStrategy W
  strategy id failure_type adapter auto apply = record {
    id = id;
    failure_type = failure_type;
    adapter_id = adapter;
    risk = low;
    auto_apply = auto;
    apply = apply;
  }

  abbrev pub suits : String → String → HealingStrategy W → Bool
  suits failure_type adapter s =
      same s.failure_type failure_type && (same s.adapter_id adapter || same s.adapter_id "any")

module _ {W : Type 0} (files : Files W) where
  unfoldable pub create_missing_directory : HealingContext → W → HealingResult × W
  create_missing_directory c w =
      let dir = files.dirname (target_of c) in
      (
        repaired (dir ∷ []) ("Created missing parent directory for " <> target_of c <> ".") true,
        files.mkdir dir w,
      )

  unfoldable pub normalize_relative_path : HealingContext → W → HealingResult × W
  normalize_relative_path c w =
      let normalized = files.normalize (target_of c) in
      (
        repaired (normalized ∷ [])
            ("Normalized path from " <> target_of c <> " to " <> normalized <> ".") true,
        w,
      )

  unfoldable pub retry_transient_command : HealingContext → W → HealingResult × W
  retry_transient_command c w =
      (repaired [] ("Marked transient retry for step " <> c.step_id <> ".") true, w)

  unfoldable pub suggest_allowlisted_alternative : HealingContext → W → HealingResult × W
  suggest_allowlisted_alternative c w =
      (repaired [] "Suggested using an allowlisted command alternative." false, w)

  unfoldable pub detect_no_op_diff : HealingContext → W → HealingResult × W
  detect_no_op_diff c w = (repaired [] "Detected no-op diff; safe to skip PR creation." false, w)

  unfoldable pub get_healing_strategies : List (HealingStrategy W)
  get_healing_strategies =
      strategy "create-missing-directory" "path-not-found" "file-system" true
        create_missing_directory
      ∷ strategy "normalize-relative-path" "path-not-found" "file-system" true
          normalize_relative_path
      ∷ strategy "retry-transient-command" "network-transient" "terminal" true
          retry_transient_command
      ∷ strategy "suggest-allowlisted-alternative" "policy-blocked" "terminal" false
          suggest_allowlisted_alternative
      ∷ strategy "skip-no-op-pr" "verification-failed" "github" false detect_no_op_diff
      ∷ []

  unfoldable pub find_candidate_strategies : String → String → List (HealingStrategy W)
  find_candidate_strategies failure_type adapter =
      select (suits failure_type adapter) get_healing_strategies
