-- ===== src/Memory/Finds.antt =====
-- The report that was recorded last: run-store.ts, lines 36 to 46 and 367 to 434.
use code_kit_ultra.Base.{
  String, ℕ, suc, ◌≡◌, refl, ap, ◌∙◌, List, ◌∷◌, some, Bool, true, false, same, take, find,
  lookup-insert_self, or_default, eq_refl,
}
use code_kit_ultra.Memory.Values.{Value, string, property, get, get-with_field, are_optional}
use code_kit_ultra.Memory.Project.{
  ProjectMemory, RunStoreOptions, Disk, RecordTimes, save_project_memory, remember, remembered,
  record_run, get_report_created_at, to_safe_timestamp, has_id, entry_path, read_report, text_value,
  is_named, read_at, save_run_report, run_directory, report_path, new_run_entry, id_or,
  optional_fields, get_memory_by_run_id,
}
use code_kit_ultra.Memory.Entries.{checked_names, load_project_memory-Passes}
use code_kit_ultra.Memory.Loads.{
  IsReadable, readable-loads, remembered-Passes, record_run_lem, load-save_memory,
}

find-head : (p : Value → Bool) (v : Value) (vs : List Value) → p v ≡ true → find p (v ∷ vs) ≡ some v
find-head p v vs h = rw h refl

module _ (join : String → String → String) (root : String) (options : RunStoreOptions)
    (times : RecordTimes) (report : Value) where
  abbrev newest : Value
  newest =
      new_run_entry (get_report_created_at times.created report) (run_directory join root times)
        (report_path join root times) (to_safe_timestamp times.id) report

  newest-id :
      (id : String)
      → get "id" report ≡ some (string id)
      → same id "" ≡ false
      → get "id" newest ≡ some (string id)
  unfolding new_run_entry id_or
  newest-id id named nonempty = rw (named, nonempty) refl

  newest-path : entry_path newest ≡ some (report_path join root times)
  unfolding new_run_entry
  newest-path = ap text_value (
      get-with_field "artifactReportPath" "id"
        (id_or (to_safe_timestamp times.id) (get "id" report))
        (property "recordedAt" (string (get_report_created_at times.created report)) (
          property "artifactDirectory" (string (run_directory join root times)) (
            property "artifactReportPath" (string (report_path join root times))
              (optional_fields report)))))

  newest-found :
      (id : String) (n : ℕ) (m : ProjectMemory)
      → get "id" report ≡ some (string id)
      → same id "" ≡ false
      → or_default options.max_stored_runs 50 ≡ suc n
      → find (has_id id) (remembered join root options times report m).runs ≡ some newest
  unfolding remembered remember
  newest-found id n m named nonempty kept = rw kept (
      find-head (has_id id) newest (take n m.runs)
        (ap (λ o. is_named id (text_value o)) (newest-id id named nonempty) ∙ eq_refl id))

  newest-read :
      (next : ProjectMemory) (disk : Disk)
      → read_report
          (save_project_memory times.saved next
            (save_run_report (report_path join root times) report disk))
          (some newest)
        ≡ some report
  unfolding save_project_memory save_run_report
  newest-read next disk =
      let path = report_path join root times in
      let written = save_run_report path report disk in
      ap (read_at (save_project_memory times.saved next written)) newest-path
      ∙ lookup-insert_self path report disk.reports

  -- Where the stored memory can be read, at least one run is kept, and the report has an id and texts
  -- or nothing where an entry must: the id finds the report that was recorded.
  pub record_run-get :
      (now id : String) (n : ℕ) (disk : Disk)
      → IsReadable disk.memory
      → are_optional checked_names report ≡ true
      → get "id" report ≡ some (string id)
      → same id "" ≡ false
      → or_default options.max_stored_runs 50 ≡ suc n
      → get_memory_by_run_id now id (record_run join root options times report disk).1
        ≡ some (some report)
  unfolding get_memory_by_run_id save_run_report
  record_run-get now id n disk readable typed named nonempty kept =
      let written = save_run_report (report_path join root times) report disk in
      let (m, e) = readable-loads times.updated disk.memory written.reports readable in
      let next = remembered join root options times report m in
      let passes =
        remembered-Passes join root options times report m typed
          (load_project_memory-Passes times.updated written m e) in
      rw
        (
          record_run_lem join root options times report disk m e,
          load-save_memory now times.saved next written passes,
        )
        (ap some (
          ap (read_report (save_project_memory times.saved next written))
            (newest-found id n m named nonempty kept)
          ∙ newest-read next disk))
