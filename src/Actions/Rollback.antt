-- ===== src/Actions/Rollback.antt =====
-- packages/orchestrator/src/rollback-engine.ts: the rollback of the entries of a run.
use code_kit_ultra.Base.{
  String, ℕ, ◌+◌, List, [], ◌∷◌, ◌++◌, Option, none, some, Bool, true, false, ◌&&◌, if◌then◌else◌,
}
use code_kit_ultra.Actions.Runner.{EntryType, RollbackEntry}

-- The file system as the rollback uses it. A removal that answers false throws.
pub record Files (W : Type 0) : Type 0 where
  pub exists : String → W → Bool
  pub unlink : String → W → Bool × W
  pub is_empty_dir : String → W → Bool
  pub rmdir : String → W → Bool × W

pub record RollbackOutcome : Type 0 where
  pub attempted : ℕ
  pub reverted : ℕ
  pub skipped : ℕ

-- `xs.reverse()`
unfoldable pub reverse {ℓ} : {A : Type ℓ} → List A → List A
reverse [] = []
reverse (x ∷ xs) = reverse xs ++ x ∷ []

unfoldable pub skip : RollbackOutcome → RollbackOutcome
skip o = record o { attempted = o.attempted + 1; skipped = o.skipped + 1 }

unfoldable pub revert : RollbackOutcome → RollbackOutcome
revert o = record o { attempted = o.attempted + 1; reverted = o.reverted + 1 }

-- The outcome so far, or an error, and the files.
abbrev pub Undoing : Type 0 → Type 0
Undoing W = Option RollbackOutcome × W

-- The removal throws or is counted.
unfoldable pub removed : {W : Type 0} → RollbackOutcome → Bool × W → Undoing W
removed o (true, w) = (some (revert o), w)
removed o (false, w) = (none, w)

module _ {W : Type 0} (files : Files W) where
  -- Lines 35 to 76, for an entry of each type.
  unfoldable pub undo : EntryType → String → RollbackOutcome → W → Undoing W
  undo EntryType.file_write target o w =
      if files.exists target w then removed o (files.unlink target w) else (some (skip o), w)
  undo EntryType.dir_create target o w =
      if files.exists target w && files.is_empty_dir target w
      then removed o (files.rmdir target w)
      else (some (skip o), w)
  undo EntryType.file_append target o w = (some (skip o), w)
  undo EntryType.command target o w = (some (skip o), w)

  unfoldable pub undo_all : List RollbackEntry → Undoing W → Undoing W
  undo_all es (none, w) = (none, w)
  undo_all [] (some o, w) = (some o, w)
  undo_all (e ∷ es) (some o, w) = undo_all es (undo e.entry_type e.target o w)

  -- Lines 29 to 78: the rollback files of the run, the last first, each from its end.
  unfoldable pub undo_files : List (List RollbackEntry) → Undoing W → Undoing W
  undo_files [] s = s
  undo_files (es ∷ rest) s = undo_files rest (undo_all (reverse es) s)

  -- The entries of the run's rollback files, in the order of the directory.
  unfoldable pub rollback_run : List (List RollbackEntry) → W → Undoing W
  rollback_run metas w =
      undo_files (reverse metas) (some (record { attempted = 0; reverted = 0; skipped = 0 }), w)
