-- ===== src/Actions/Tests.antt =====
-- The runner and the rollback at concrete inputs: the world is the list of the existing paths, and a
-- command always succeeds.
use code_kit_ultra.Base.{
  some, String, ◌≡◌, refl, List, [], ◌∷◌, map, none, true, false, not, includes, select, same, All,
  if-split, arith,
}
use code_kit_ultra.Shared.{Mode}
use code_kit_ultra.Gates.Modes.{get_mode_policy}
use code_kit_ultra.Actions.Policy.{
  BuilderAction, write_file, create_dir, run_command, Phase, BuilderActionBatch, Host,
  assess_action,
}
use code_kit_ultra.Actions.Runner.{
  System, EntryType, RollbackEntry, phase_name, is_dry, run_action_batch,
}
use code_kit_ultra.Actions.Rollback.{
  Files, rollback_run, undo_files, undo_all, undo, removed, revert, skip, reverse,
}
use code_kit_ultra.Actions.Cleared.{Reports, run_action_batch-Reports}
use code_kit_ultra.Actions.Reverts.{IsRemoving, IsGone, rollback_run-IsGone}

abbrev host : Host
host = record {
  is_absolute = λ p. same p "/etc/passwd";
  normalize = λ p. p;
  test = λ pattern line. same pattern "git\\s+push";
}

abbrev path_of : BuilderAction → String
path_of (write_file path content reason) = path
path_of (create_dir path reason) = path
path_of _ = ""

abbrev system : System (List String)
system = record { apply_file = λ a w. (true, path_of a ∷ w); execute = λ line cwd w. (true, w) }

abbrev batch : BuilderActionBatch
batch = record {
  run_id = "run-1";
  phase = Phase.build;
  generated_by = "builder";
  summary = "a file and a push";
  actions =
      write_file "src/a.ts" "x" none
      ∷ write_file "/etc/passwd" "x" none
      ∷ run_command "git push" none none
      ∷ [];
}

run_action_batch-Reports_example :
    let l = run_action_batch system host Mode.builder batch ("build" ∷ []) none [] in
    Reports
      (get_mode_policy Mode.builder).execution
      (includes (phase_name Phase.build) ("build" ∷ []))
      (is_dry Mode.builder none)
      (map (assess_action host) batch.actions)
      l.results
      l.entries
run_action_batch-Reports_example =
    run_action_batch-Reports system host Mode.builder batch ("build" ∷ []) none []

abbrev remove : String → List String → List String
remove p w = select (λ q. not (same q p)) w

abbrev files : Files (List String)
files = record {
  exists = includes;
  unlink = λ p w. (true, remove p w);
  is_empty_dir = λ p w. true;
  rmdir = λ p w. (true, remove p w);
}

remove_keeps :
    (t u : String) (w : List String) → includes t w ≡ false → includes t (remove u w) ≡ false
remove_keeps t u [] h = refl
remove_keeps t u (x ∷ w) h =
    let k = remove_keeps t u w (ground (arith, h)) in
    if-split (λ q. includes t q ≡ false) (not (same x u)) (x ∷ remove u w) (remove u w)
      (λ _. ground (arith, h, k)) (λ _. k)

remove_gone : (t : String) (w : List String) → includes t (remove t w) ≡ false
remove_gone t [] = refl
remove_gone t (x ∷ w) =
    let k = remove_gone t w in
    if-split (λ q. includes t q ≡ false) (not (same x t)) (x ∷ remove t w) (remove t w)
      (λ e. ground (arith, e, k)) (λ _. k)

removing : IsRemoving files
removing = record {
  removes = λ t w _. remove_gone t w;
  unlink_keeps = remove_keeps;
  rmdir_keeps = remove_keeps;
}

abbrev metas : List (List RollbackEntry)
metas =
    (record { entry_type = EntryType.dir_create; target = "src" }
      ∷ record { entry_type = EntryType.file_write; target = "src/a.ts" }
      ∷ [])
    ∷ []

reverted :
    (rollback_run files metas ("src/a.ts" ∷ "src" ∷ [])).0
    ≡ some (record { attempted = 2; reverted = 2; skipped = 0 })
unfolding rollback_run undo_files undo_all undo removed revert skip reverse
reverted = refl

rollback_run-IsGone_example :
    All (All (IsGone files (rollback_run files metas ("src/a.ts" ∷ "src" ∷ [])).1)) metas
rollback_run-IsGone_example =
    rollback_run-IsGone files removing metas ("src/a.ts" ∷ "src" ∷ []) _ reverted
