-- ===== src/Memory/Tests.antt =====
-- The memory at concrete inputs.
use Prim.Native.String.{String, ◌++◌ as ◌<>◌}
use code_kit_ultra.Base.{
  ◌≡◌, refl, [], ◌∷◌, Option, none, some, false, All, length, trim, trim_by, List,
}
use code_kit_ultra.Memory.Values.{
  Value, null, string, object, array, element, empty_array, empty_object, property,
  is_project_memory_run_entry,
}
use code_kit_ultra.Memory.Project.{
  ProjectMemory, RunStoreOptions, Disk, RecordTimes, missing, holds, create_default_project_memory,
  load_project_memory, record_run, dedupe_preserve_order, dedupe, remembered, save_run_report,
  normalize_memory, list_or_empty,
}
use code_kit_ultra.Memory.Bundles.{
  Artifact, intake, plan, run_state, RunFiles, carry_out, update_artifact,
}
use code_kit_ultra.Memory.Latest.{updated}
use code_kit_ultra.Memory.Entries.{IsRunEntry, load_project_memory-IsRunEntry}
use code_kit_ultra.Memory.Loads.{record_run-load}
use code_kit_ultra.Memory.Tidy.{IsTidy, record_run-IsTidy}

abbrev join : String → String → String
join folder name = folder <> "/" <> name

abbrev options : RunStoreOptions
options = record { max_recent_ideas = none; max_recent_artifacts = some 5; max_stored_runs = none }

abbrev now : String
now = "2026-01-02T03:04:05.678Z"

abbrev times : RecordTimes
times = record { directory = now; created = now; id = now; updated = now; saved = now }

abbrev report : Value
report = object (
    property "id" (string "run-1") (
      property "input" (object (property "idea" (string " a shop ") empty_object))
        (property "orgId" (string "acme") empty_object)))

abbrev disk : Disk
disk = record { memory = missing; reports = [] }

-- The report with an organisation that is null gives an entry that does not pass when it is loaded.
abbrev orphan : Value
orphan = object (
    property "recordedAt" (string now) (
      property "artifactDirectory" (string "d")
        (property "artifactReportPath" (string "p") (property "orgId" null empty_object))))

orphan_is_dropped : is_project_memory_run_entry orphan ≡ false
unfolding is_project_memory_run_entry
orphan_is_dropped = refl

deduped : dedupe_preserve_order ("a" ∷ " a " ∷ "" ∷ "b" ∷ []) ≡ "a" ∷ "b" ∷ []
unfolding dedupe_preserve_order dedupe trim trim_by
deduped = refl

abbrev recorded : Option ProjectMemory × Disk
recorded = record_run join "runs" options times report disk

record_run-load_example :
    (m : ProjectMemory) × (recorded.0 ≡ some m)
    × (load_project_memory now recorded.1 ≡ some (record m { updated_at = now }))
record_run-load_example = record_run-load join "runs" options times report now disk tt refl

abbrev fresh : ProjectMemory
fresh = remembered join "runs" options times report (create_default_project_memory now)

recorded_fresh : recorded.0 ≡ some fresh
unfolding record_run load_project_memory save_run_report
recorded_fresh = refl

record_run-IsTidy_example : IsTidy options fresh
record_run-IsTidy_example =
    record_run-IsTidy join "runs" options times report disk fresh recorded_fresh

-- A stored memory of two runs, of which one is no entry.
abbrev stored : Value
stored = object (
    property "runs"
      (array (
        element orphan (
          element
            (object (
              property "recordedAt" (string now) (
                property "artifactDirectory" (string "d")
                  (property "artifactReportPath" (string "p") empty_object))))
            empty_array)))
      empty_object)

abbrev stored_disk : Disk
stored_disk = record { memory = holds stored; reports = [] }

loaded_one : length (normalize_memory now stored).runs ≡ 1
unfolding normalize_memory list_or_empty is_project_memory_run_entry
loaded_one = refl

loaded : load_project_memory now stored_disk ≡ some (normalize_memory now stored)
unfolding load_project_memory
loaded = refl

load_project_memory-IsRunEntry_example : All IsRunEntry (normalize_memory now stored).runs
load_project_memory-IsRunEntry_example =
    load_project_memory-IsRunEntry now stored_disk (normalize_memory now stored) loaded

abbrev updates : List (Artifact × Value)
updates = (intake, stored) ∷ (run_state, stored) ∷ (plan, report) ∷ (plan, stored) ∷ []

abbrev empty_run : RunFiles
empty_run = record { files = []; puts = [] }

abbrev all_written : RunFiles
all_written = update_artifact plan stored (
    update_artifact plan report
      (update_artifact run_state stored (update_artifact intake stored empty_run)))

-- The first put of the plan, which is carried out first, makes its file older for a while.
abbrev all_carried_out : RunFiles
all_carried_out = record {
  files = carry_out plan stored (
      carry_out run_state stored
        (carry_out intake stored (carry_out plan report all_written.files)));
  puts = [];
}
