-- ===== src/Repair/Tests.antt =====
-- The repairs at concrete inputs: a world that counts the directories that were made.
use code_kit_ultra.Base.{
  String, ℕ, ◌+◌, ◌≡◌, ◌≢◌, refl, ◌⊎◌, [], ◌∷◌, ◌++◌, Option, none, some, true, false, ltb, arith,
}
use code_kit_ultra.Shared.{ExecutionRisk, Payload}
use code_kit_ultra.Execution.Machine.{Machine, Call, ok, raised}
use code_kit_ultra.Execution.Attempt.{Step, attempts, perform}
use code_kit_ultra.Execution.Termination.{IsTotal}
use code_kit_ultra.Execution.Tests.{machine}
use code_kit_ultra.Repair.Strategies.{
  low, HealingContext, Files, find_candidate_strategies, get_healing_strategies, classify_failure,
  classify_text, create_missing_directory,
}
use code_kit_ultra.Repair.Engine.{
  HealingMode, HealingPolicy, HealingStore, assist, auto, is_verified, load_healing_attempts,
  attempt_healing, heal_failed_step, decide, rank_strategies, try_strategy, requires_approval,
  apply_strategy, close_attempt, revalidate_after_heal, save_healing_attempts, update_healing_stats,
}
use code_kit_ultra.Repair.Applied.{MayRepair, attempt_healing-MayRepair}
use code_kit_ultra.Repair.Verified.{attempt_healing-shows}
use code_kit_ultra.Repair.Recorded.{attempt_healing-logs}
use mathlib.Core.Path.{subst}
use mathlib.Core.Option.{some_inj}
use code_kit_ultra.Execution.Endless.{IsCut}
use code_kit_ultra.Repair.Endless.{AllowsRetry, IsTransient, attempts_transient-diverges}
use code_kit_ultra.Repair.Ends.{attempts_unrepaired-IsTotal}

abbrev files : Files ℕ
files = record {
  dirname = λ p. "out";
  normalize = λ p. p;
  mkdir = λ p w. w + 1;
  exists_sync = λ p w. ltb 0 w;
}

abbrev policy : HealingMode → HealingPolicy
policy mode = record {
  enabled = true;
  mode = mode;
  allow_auto_apply_for_risk = low ∷ [];
  approval_required_for_strategies = "github-auth-reset" ∷ [];
}

abbrev context : String → String → HealingContext
context adapter message = record {
  run_id = "run-1";
  step_id = "task-1";
  adapter_id = adapter;
  error_message = message;
  payload = ("path", "out/a.ts") ∷ [];
}

abbrev nothing : HealingStore ℕ
nothing = record { logs = []; stats = []; world = 0 }

abbrev missing : HealingContext
missing = context "file-system" "ENOENT: no such file"

-- The missing directory is made, and the file is there.
made :
    let (a, t) = attempt_healing (λ m. m) files (policy auto) missing nothing in
    (is_verified a.status ≡ true)
    × (a.selected_strategy_id ≡ some "create-missing-directory")
    × (t.world ≡ 1)
unfolding attempt_healing decide rank_strategies find_candidate_strategies get_healing_strategies
    classify_failure classify_text try_strategy requires_approval apply_strategy close_attempt
    create_missing_directory revalidate_after_heal save_healing_attempts update_healing_stats
made = (refl, refl, refl)

-- In the mode of the shipped policy an approval is asked for.
asked :
    let (a, t) = attempt_healing (λ m. m) files (policy assist) missing nothing in
    (is_verified a.status ≡ false) × (a.approval_required ≡ true) × (t.world ≡ 0)
unfolding attempt_healing decide rank_strategies find_candidate_strategies get_healing_strategies
    classify_failure classify_text try_strategy requires_approval close_attempt
    save_healing_attempts
asked = (refl, refl, refl)

attempt_healing-MayRepair_example :
    let (a, t) = attempt_healing (λ m. m) files (policy auto) missing nothing in
    ((t.world ≡ 0) × (t.stats ≡ []) × (is_verified a.status ≡ false))
    ⊎ MayRepair (policy auto) "file-system"
attempt_healing-MayRepair_example =
    attempt_healing-MayRepair files (policy auto) missing (λ m. m) nothing

attempt_healing-shows_example :
    files.exists_sync "out/a.ts"
      (attempt_healing (λ m. m) files (policy auto) missing nothing).1.world
    ≡ true
attempt_healing-shows_example =
    attempt_healing-shows (λ m. m) files (policy auto) missing nothing refl made.0

attempt_healing-logs_example :
    let (a, t) = attempt_healing (λ m. m) files (policy auto) missing nothing in
    (load_healing_attempts "run-1" t ≡ load_healing_attempts "run-1" nothing ++ a ∷ [])
    × ((other : String)
        → "run-1" ≢ other
        → load_healing_attempts other t ≡ load_healing_attempts other nothing)
attempt_healing-logs_example = attempt_healing-logs (λ m. m) files (policy auto) missing nothing

abbrev failing : Step (HealingStore ℕ)
failing = record {
  task = record {
    id = "task-1";
    title = "build";
    adapter_id = "terminal";
    payload = [];
    requires_approval = false;
    max_attempts = some 2;
    rollback_payload = none;
  };
  index = 0;
  adapter = record {
    id = "terminal";
    validate = λ p w. (raised "", w);
    simulate = none;
    estimate_risk = none;
    execute = λ p w. (raised "network timeout", w);
    verify = none;
    suggest_fix = none;
    rollback = none;
  };
  simulation = none;
  risk = ExecutionRisk.low;
}

abbrev begun : Machine (HealingStore ℕ)
begun =
    let m = machine (failing.task ∷ []) false in
    record {
      bundle = m.bundle;
      saved = m.saved;
      on_disk = m.on_disk;
      puts = m.puts;
      audit = m.audit;
      outcomes = m.outcomes;
      world = nothing;
    }

no_repair : ¬ MayRepair (policy assist) "terminal"
no_repair may = cc (may.mode)

attempts_unrepaired-IsTotal_example :
    IsTotal (attempts (heal_failed_step (λ m. m) files (policy assist) "run-1") 3 failing 1 2 begun)
attempts_unrepaired-IsTotal_example =
    attempts_unrepaired-IsTotal (λ m. m) files (policy assist) "run-1" failing 3 2 begun no_repair
      (omega arith)

abbrev with_fix : Step (HealingStore ℕ)
with_fix = record failing {
  adapter = record (failing.adapter) {
    suggest_fix =
        some (λ e p w. (ok "Check command binary, permissions, and allowlist policy.", w));
  };
}

allows_retry : AllowsRetry (policy auto)
allows_retry = record { enabled = refl; mode = refl; risk = refl; unlisted = refl }

fails :
    (w : HealingStore ℕ)
    → (e : String) × ((perform with_fix w).0 ≡ raised e) × IsTransient (λ m. m) e
unfolding perform classify_failure classify_text
fails w = ("network timeout", refl, refl)

some_fix :
    {f g : String → Payload → Call (HealingStore ℕ) String}
    → ◌≡◌ {A = Option _} (some f) (some g)
    → ((e : String) (w : HealingStore ℕ) → (text : String) × ((f e [] w).0 ≡ ok text))
    → (e : String) (w : HealingStore ℕ) → (text : String) × ((g e [] w).0 ≡ ok text)
some_fix q h =
    subst (λ k. (e : String) (w : HealingStore ℕ) → (text : String) × ((k e [] w).0 ≡ ok text))
      (some_inj.0 q) h

attempts_transient-diverges_example :
    IsCut (attempts (heal_failed_step (λ m. m) files (policy auto) "run-1") 9 with_fix 1 2 begun)
attempts_transient-diverges_example =
    attempts_transient-diverges (λ m. m) files (policy auto) "run-1" allows_retry with_fix refl
      fails (λ f e w q. some_fix q (λ d v. (_, refl)) e w) 9 1 2 begun (omega arith)
