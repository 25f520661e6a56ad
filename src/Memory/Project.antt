-- ===== src/Memory/Project.antt =====
-- The memory of the project: run-store.ts, lines 159 to 434 and 36 to 46. A time is the text of
-- `toISOString`; `path.join` is a parameter.
use Prim.Native.Char.{code}
use Prim.Native.String.{String, ◌++◌ as ◌<>◌}
use code_kit_ultra.Base.{
  ℕ, List, [], ◌∷◌, Option, none, some, Bool, false, ◌||◌, ◌==◌, same, includes, select, take, find,
  lookup, insert, or_default, map_some, if◌then◌else◌, trim, map,
}
use code_kit_ultra.Memory.Values.{
  Value, null, number, string, array, object, Properties, empty_object, property, items_of, list_of,
  get, with_field, is_truthy, texts_of, extract_string_property, extract_object_property, is_mode,
  is_project_memory_run_entry,
}

pub record ProjectMemory : Type 0 where
  pub version : ℕ
  pub updated_at : String
  pub last_run_at : Option String
  pub last_idea : Option String
  pub recent_ideas : List String
  pub recent_artifact_directories : List String
  pub runs : List Value

pub record RunStoreOptions : Type 0 where
  pub max_recent_ideas : Option ℕ
  pub max_recent_artifacts : Option ℕ
  pub max_stored_runs : Option ℕ

-- The file of the memory: not there, blank, no JSON, or a value.
pub data MemoryFile : Type 0 where
  missing blank broken : MemoryFile
  holds : Value → MemoryFile

-- The file of the memory, and the files of the reports by their paths.
pub record Disk : Type 0 where
  pub memory : MemoryFile
  pub reports : List (String × Value)

-- What the clock shows when a run is recorded: for its directory, for a report without a time, for an
-- id, for the memory, and for its file.
pub record RecordTimes : Type 0 where
  pub directory : String
  pub created : String
  pub id : String
  pub updated : String
  pub saved : String

-- `input.toISOString().replace(/[:.]/g, "-")`
unfoldable pub to_safe_timestamp : String → String
to_safe_timestamp String.[] = String.[]
to_safe_timestamp (String.◌∷◌ c s) =
    String.◌∷◌ (if code c == 58 || code c == 46 then "-" else c) (to_safe_timestamp s)

abbrev pub input_of : Value → Option Value
input_of report = extract_object_property report ("input" ∷ "userInput" ∷ "request" ∷ [])

unfoldable pub extract_idea_from_report : Value → Option String
extract_idea_from_report report = elim (extract_string_property report ("idea" ∷ [])) [
  | some s ↦ some s
  | none ↦ elim (input_of report) [
    | none ↦ none
    | some input ↦ extract_string_property input ("idea" ∷ "objective" ∷ "prompt" ∷ [])
  ]
]

-- `isMode(value) ? value : undefined`
abbrev pub mode_or : Option String → Option String → Option String
mode_or none otherwise = otherwise
mode_or (some s) otherwise = if is_mode s then some s else otherwise

unfoldable pub extract_mode_from_report : Value → Option String
extract_mode_from_report report =
    mode_or (extract_string_property report ("mode" ∷ [])) (elim (input_of report) [
      | none ↦ none
      | some input ↦ mode_or (extract_string_property input ("mode" ∷ [])) none
    ])

unfoldable pub get_report_created_at : String → Value → String
get_report_created_at now report =
    or_default (extract_string_property report ("createdAt" ∷ "generatedAt" ∷ "timestamp" ∷ [])) now

-- `dedupePreserveOrder`, behind the values that were seen.
unfoldable pub dedupe : List String → List String → List String
dedupe seen [] = []
dedupe seen (value ∷ values) =
    let s = trim value in
    let skipped = dedupe seen values in
    let rest = dedupe (s ∷ seen) values in
    if same s "" || includes s seen then skipped else s ∷ rest

unfoldable pub dedupe_preserve_order : List String → List String
dedupe_preserve_order values = dedupe [] values

unfoldable pub create_default_project_memory : String → ProjectMemory
create_default_project_memory now = record {
  version = 1;
  updated_at = now;
  last_run_at = none;
  last_idea = none;
  recent_ideas = [];
  recent_artifact_directories = [];
  runs = [];
}

-- The stored value, or its default where it has another type.
unfoldable pub number_or : ℕ → Option Value → ℕ
number_or n (some (number m)) = m
number_or n o = n

unfoldable pub text_or_now : String → Option Value → String
text_or_now now (some (string s)) = s
text_or_now now o = now

unfoldable pub text_or_null : Option Value → Option String
text_or_null (some (string s)) = some s
text_or_null o = none

unfoldable pub list_or_empty : Option Value → List Value
list_or_empty (some (array vs)) = list_of vs
list_or_empty o = []

-- Lines 289 to 314.
unfoldable pub normalize_memory : String → Value → ProjectMemory
normalize_memory now stored = record {
  version = number_or 1 (get "version" stored);
  updated_at = text_or_now now (get "updatedAt" stored);
  last_run_at = text_or_null (get "lastRunAt" stored);
  last_idea = text_or_null (get "lastIdea" stored);
  recent_ideas = texts_of (list_or_empty (get "recentIdeas" stored));
  recent_artifact_directories = texts_of (list_or_empty (get "recentArtifactDirectories" stored));
  runs = select is_project_memory_run_entry (list_or_empty (get "runs" stored));
}

-- `none` is the error of `JSON.parse`, here and below.
unfoldable pub load_project_memory : String → Disk → Option ProjectMemory
load_project_memory now disk = elim (disk.memory) [
  | missing ↦ some (create_default_project_memory now)
  | blank ↦ some (create_default_project_memory now)
  | broken ↦ none
  | holds stored ↦ some (
      if is_truthy (some stored)
      then normalize_memory now stored
      else create_default_project_memory now)
]

abbrev pub text_or_nothing : Option String → Value
text_or_nothing none = null
text_or_nothing (some s) = string s

abbrev pub texts : List String → Value
texts ss = array (items_of (map string ss))

unfoldable pub memory_value : ProjectMemory → Value
memory_value m = object (
    property "version" (number m.version) (
      property "updatedAt" (string m.updated_at) (
        property "lastRunAt" (text_or_nothing m.last_run_at) (
          property "lastIdea" (text_or_nothing m.last_idea) (
            property "recentIdeas" (texts m.recent_ideas) (
              property "recentArtifactDirectories" (texts m.recent_artifact_directories)
                (property "runs" (array (items_of m.runs)) empty_object)))))))

unfoldable pub save_project_memory : String → ProjectMemory → Disk → Disk
save_project_memory now memory disk = record disk {
  memory = holds (memory_value (record memory { updated_at = now }));
}

-- The properties of a report that an entry takes as they are.
abbrev pub copied_names : List String
copied_names =
    "approvedGates" ∷ "currentPhase" ∷ "orgId" ∷ "workspaceId" ∷ "projectId" ∷ "actorId"
    ∷ "actorType" ∷ "correlationId" ∷ "authMode" ∷ []

abbrev pub copy_all : List String → Value → Properties
copy_all [] report = empty_object
copy_all (k ∷ ks) report = with_field k (get k report) (copy_all ks report)

-- Lines 386 to 401: what an entry may lack.
unfoldable pub optional_fields : Value → Properties
optional_fields report =
    with_field "summary" (map_some string (extract_string_property report ("summary" ∷ []))) (
      with_field "idea" (map_some string (extract_idea_from_report report)) (
        with_field "mode" (map_some string (extract_mode_from_report report))
          (copy_all copied_names report)))

-- `report.id || ...`
unfoldable pub id_or : String → Option Value → Option Value
id_or id_stamp id = if is_truthy id then id else some (string ("run-" <> id_stamp))

-- Lines 381 to 402: the entry of a run.
unfoldable pub new_run_entry : String → String → String → String → Value → Value
new_run_entry recorded_at directory path id_stamp report = object (
    with_field "id" (id_or id_stamp (get "id" report)) (
      property "recordedAt" (string recorded_at) (
        property "artifactDirectory" (string directory)
          (property "artifactReportPath" (string path) (optional_fields report)))))

-- Lines 404 to 424.
unfoldable pub remember :
    RunStoreOptions
    → String
    → String
    → String
    → Option String
    → Value
    → ProjectMemory
    → ProjectMemory
remember options now recorded_at directory idea entry memory = record memory {
  updated_at = now;
  last_run_at = some recorded_at;
  last_idea = elim idea [ none ↦ memory.last_idea | some s ↦ some s ];
  recent_ideas = take (or_default options.max_recent_ideas 20) (
      dedupe_preserve_order
        (elim idea [ none ↦ memory.recent_ideas | some s ↦ s ∷ memory.recent_ideas ]));
  recent_artifact_directories =
      take (or_default options.max_recent_artifacts 20)
        (dedupe_preserve_order (directory ∷ memory.recent_artifact_directories));
  runs = take (or_default options.max_stored_runs 50) (entry ∷ memory.runs);
}

-- `saveRunReportToDirectory`
unfoldable pub save_run_report : String → Value → Disk → Disk
save_run_report path report disk = record disk { reports = insert path report disk.reports }

module _ (join : String → String → String) (root : String) where
  unfoldable pub run_directory : RecordTimes → String
  run_directory times = join root (to_safe_timestamp times.directory)

  unfoldable pub report_path : RecordTimes → String
  report_path times = join (run_directory times) "run-report.json"

  unfoldable pub remembered : RunStoreOptions → RecordTimes → Value → ProjectMemory → ProjectMemory
  remembered options times report memory =
      let recorded_at = get_report_created_at times.created report in
      let directory = run_directory times in
      remember options times.updated recorded_at directory (extract_idea_from_report report)
        (new_run_entry recorded_at directory (report_path times) (to_safe_timestamp times.id)
          report)
        memory

  -- Where the memory cannot be read the report is written all the same.
  unfoldable pub record_run :
      RunStoreOptions → RecordTimes → Value → Disk → Option ProjectMemory × Disk
  record_run options times report disk =
      let written = save_run_report (report_path times) report disk in
      elim (load_project_memory times.updated written) [
        | none ↦ (none, written)
        | some memory ↦
            let updated = remembered options times report memory in
            (some updated, save_project_memory times.saved updated written)
      ]

abbrev pub text_value : Option Value → Option String
text_value (some (string s)) = some s
text_value o = none

abbrev pub is_named : String → Option String → Bool
is_named id none = false
is_named id (some s) = same s id

-- `r.id === runId`
abbrev pub has_id : String → Value → Bool
has_id id entry = is_named id (text_value (get "id" entry))

abbrev pub entry_path : Value → Option String
entry_path entry = text_value (get "artifactReportPath" entry)

abbrev pub read_at : Disk → Option String → Option Value
read_at disk none = none
read_at disk (some path) = lookup path disk.reports

-- Lines 37 to 45.
abbrev pub read_report : Disk → Option Value → Option Value
read_report disk none = none
read_report disk (some entry) = read_at disk (entry_path entry)

unfoldable pub get_memory_by_run_id : String → String → Disk → Option (Option Value)
get_memory_by_run_id now id disk =
    map_some (λ memory. read_report disk (find (has_id id) memory.runs))
      (load_project_memory now disk)
