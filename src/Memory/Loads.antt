-- ===== src/Memory/Loads.antt =====
-- What is saved is loaded again: run-store.ts, lines 279 to 331 and 367 to 434.
use code_kit_ultra.Base.{
  String, ℕ, zero, suc, ◌≡◌, refl, ap, List, [], ◌∷◌, Option, none, some, true, select, take, map,
}
use code_kit_ultra.Memory.Values.{
  Value, string, list_of-items_of, texts_of, are_optional, is_project_memory_run_entry,
}
use code_kit_ultra.Memory.Project.{
  ProjectMemory, RunStoreOptions, Disk, RecordTimes, MemoryFile, missing, blank, broken, holds,
  normalize_memory, load_project_memory, memory_value, save_project_memory, remember, remembered,
  record_run, save_run_report, report_path, number_or, text_or_now, text_or_null, list_or_empty,
  text_or_nothing,
}
use code_kit_ultra.Memory.Entries.{
  checked_names, Passes, new_run_entry-passes, load_project_memory-Passes,
}

select_all : (vs : List Value) → Passes vs → select is_project_memory_run_entry vs ≡ vs
select_all [] h = refl
select_all (v ∷ vs) h = rw (h.0, select_all vs h.1) refl

Passes-take : (n : ℕ) (vs : List Value) → Passes vs → Passes (take n vs)
Passes-take zero vs h = tt
Passes-take (suc n) [] h = tt
Passes-take (suc n) (v ∷ vs) h = (h.0, Passes-take n vs h.1)

texts_of-map : (ss : List String) → texts_of (map string ss) ≡ ss
texts_of-map [] = refl
texts_of-map (s ∷ ss) = ap (λ ts. s ∷ ts) (texts_of-map ss)

text_or_null-text : (o : Option String) → text_or_null (some (text_or_nothing o)) ≡ o
unfolding text_or_null
text_or_null-text none = refl
text_or_null-text (some s) = refl

load-save :
    (now : String) (m : ProjectMemory) → Passes m.runs → normalize_memory now (memory_value m) ≡ m
unfolding normalize_memory memory_value number_or text_or_now list_or_empty
load-save now m h =
    rw
      (
        text_or_null-text m.last_run_at,
        text_or_null-text m.last_idea,
        list_of-items_of (map string m.recent_ideas),
        list_of-items_of (map string m.recent_artifact_directories),
        list_of-items_of m.runs,
        texts_of-map m.recent_ideas,
        texts_of-map m.recent_artifact_directories,
        select_all m.runs h,
      )
      refl

-- A memory that is saved is loaded as it was, with the time of the saving.
pub load-save_memory :
    (now saved : String) (m : ProjectMemory) (disk : Disk)
    → Passes m.runs
    → load_project_memory now (save_project_memory saved m disk)
      ≡ some (record m { updated_at = saved })
unfolding load_project_memory save_project_memory memory_value
load-save_memory now saved m disk h = ap some (load-save now (record m { updated_at = saved }) h)

abbrev pub IsReadable : MemoryFile → Type 0
IsReadable broken = ⊥
IsReadable file = Unit

pub readable-loads :
    (now : String) (file : MemoryFile) (reports : List (String × Value))
    → IsReadable file
    → (m : ProjectMemory) × (load_project_memory now (record { memory = file; reports = reports })
        ≡ some m)
unfolding load_project_memory
readable-loads now missing reports h = (_, refl)
readable-loads now blank reports h = (_, refl)
readable-loads now broken reports h = elim h [ ]
readable-loads now (holds v) reports h = (_, refl)

module _ (join : String → String → String) (root : String) (options : RunStoreOptions)
    (times : RecordTimes) (report : Value) where
  pub remembered-Passes :
      (m : ProjectMemory)
      → are_optional checked_names report ≡ true
      → Passes m.runs
      → Passes (remembered join root options times report m).runs
  unfolding remembered remember
  remembered-Passes m typed h =
      Passes-take _ (_ ∷ m.runs) (new_run_entry-passes _ _ _ _ report typed, h)

  -- What recording a run comes to, where the memory can be read.
  pub record_run_lem :
      (disk : Disk) (m : ProjectMemory)
      → let written = save_run_report (report_path join root times) report disk in
        load_project_memory times.updated written ≡ some m
        → record_run join root options times report disk ≡ (
          some (remembered join root options times report m),
          save_project_memory times.saved (remembered join root options times report m) written,
        )
  unfolding record_run
  record_run_lem disk m h = rw (h, record_run) refl

  pub record_run-unread :
      (disk : Disk)
      → load_project_memory times.updated
          (save_run_report (report_path join root times) report disk)
        ≡ none
      → (record_run join root options times report disk).0 ≡ none
  unfolding record_run
  record_run-unread disk h = rw (h, record_run) refl

  -- Where the stored memory can be read, and the report has texts or nothing where an entry must:
  -- what is recorded is what is loaded afterwards, with the time of its saving.
  pub record_run-load :
      (now : String) (disk : Disk)
      → IsReadable disk.memory
      → are_optional checked_names report ≡ true
      → let r = record_run join root options times report disk in
        (m : ProjectMemory) × (r.0 ≡ some m)
        × (load_project_memory now r.1 ≡ some (record m { updated_at = times.saved }))
  unfolding save_run_report
  record_run-load now disk readable typed =
      let written = save_run_report (report_path join root times) report disk in
      let (m, e) = readable-loads times.updated disk.memory written.reports readable in
      let next = remembered join root options times report m in
      rw (record_run_lem disk m e) (
        next,
        refl,
        load-save_memory now times.saved next written
            (remembered-Passes m typed (load_project_memory-Passes times.updated written m e)),
      )

  -- Where the stored memory is no JSON, the report is written, and then an error is thrown that
  -- leaves the memory as it is.
  pub record_run-broken :
      (disk : Disk)
      → disk.memory ≡ broken
      → record_run join root options times report disk
        ≡ (none, save_run_report (report_path join root times) report disk)
  unfolding record_run load_project_memory save_run_report
  record_run-broken disk h = rw h refl
