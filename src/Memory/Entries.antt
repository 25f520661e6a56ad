-- ===== src/Memory/Entries.antt =====
-- Which values are entries of runs: run-store.ts, lines 381 to 402 and 557 to 580.
use code_kit_ultra.Base.{
  String, ◌≡◌, refl, ◌⊎◌, inl, inr, List, [], ◌∷◌, Option, none, some, Bool, true, false, ◌&&◌,
  same, all, not, select, if◌then◌else◌, All, All-map, if-split, map_some, and_true, arith,
}
use mathlib.Core.Option.{some_inj}
use mathlib.Core.Path.{subst}
use code_kit_ultra.Memory.Values.{
  Value, null, flag, number, string, array, object, Properties, empty_object, property, get,
  with_field, get-with_field, is_text, is_text_or_missing, is_object, is_truthy, are_optional,
  optional_names, is_project_memory_run_entry, extract_string_property,
}
use code_kit_ultra.Memory.Project.{
  ProjectMemory, Disk, MemoryFile, missing, blank, broken, holds, copy_all, id_or, optional_fields,
  new_run_entry, extract_idea_from_report, extract_mode_from_report, list_or_empty,
  normalize_memory, load_project_memory, create_default_project_memory,
}

abbrev pub HasText : String → Value → Type 0
HasText k v = (s : String) × (get k v ≡ some (string s))

abbrev pub MayHaveText : String → Value → Type 0
MayHaveText k v = (get k v ≡ none) ⊎ HasText k v

-- The names of the type that hold a text where they are there; `approvedGates` and `artifacts` hold
-- other values.
abbrev pub declared_names : List String
declared_names =
    "summary" ∷ "idea" ∷ "mode" ∷ "currentPhase" ∷ "orgId" ∷ "workspaceId" ∷ "projectId" ∷ "actorId"
    ∷ "actorType" ∷ "correlationId" ∷ "authMode" ∷ []

-- An object with the texts of an entry, its `id` apart.
abbrev pub IsRunEntry : Value → Type 0
IsRunEntry v =
    HasText "recordedAt" v
    × HasText "artifactDirectory" v
    × HasText "artifactReportPath" v
    × All (λ k. MayHaveText k v) declared_names

text-HasText : (o : Option Value) → is_text o ≡ true → (s : String) × (o ≡ some (string s))
text-HasText (some (string s)) h = (s, refl)
text-HasText none h = cc
text-HasText (some null) h = cc
text-HasText (some (flag b)) h = cc
text-HasText (some (number n)) h = cc
text-HasText (some (array vs)) h = cc
text-HasText (some (object fs)) h = cc

optional-MayHaveText :
    (o : Option Value)
    → is_text_or_missing o ≡ true
    → (o ≡ none) ⊎ ((s : String) × (o ≡ some (string s)))
optional-MayHaveText none h = inl refl
optional-MayHaveText (some v) h = inr (text-HasText (some v) h)

are_optional-All :
    (ks : List String) (v : Value) → are_optional ks v ≡ true → All (λ k. MayHaveText k v) ks
are_optional-All [] v h = tt
are_optional-All (k ∷ ks) v h =
    let p = and_true (is_text_or_missing (get k v)) (are_optional ks v) h in
    (optional-MayHaveText (get k v) p.0, are_optional-All ks v p.1)

four_true :
    (a b c d e : Bool)
    → (a && b && c && d && e) ≡ true
    → (b ≡ true) × (c ≡ true) × (d ≡ true) × (e ≡ true)
four_true a b c d e h = ground arith

guard-IsRunEntry : (v : Value) → is_project_memory_run_entry v ≡ true → IsRunEntry v
unfolding is_project_memory_run_entry
guard-IsRunEntry v h =
    let p = four_true (is_object v) _ _ _ (are_optional optional_names v) h in
    (
      text-HasText (get "recordedAt" v) p.0,
      text-HasText (get "artifactDirectory" v) p.1,
      text-HasText (get "artifactReportPath" v) p.2,
      are_optional-All optional_names v p.3,
    )

-- A property more keeps the optional ones optional, if it is one that may be there, or none of them.
with_field-optional :
    (ks : List String) (j : String) (o : Option Value) (fs : Properties)
    → is_text_or_missing o ≡ true
    → are_optional ks (object fs) ≡ true
    → are_optional ks (object (with_field j o fs)) ≡ true
with_field-optional [] j o fs p h = refl
with_field-optional (k ∷ ks) j none fs p h = h
with_field-optional (k ∷ ks) j (some v) fs p h =
    ground (arith, with_field-optional ks j (some v) fs)

with_field-optional_other :
    (ks : List String) (j : String) (o : Option Value) (fs : Properties)
    → all (λ k. not (same j k)) ks ≡ true
    → are_optional ks (object fs) ≡ true
    → are_optional ks (object (with_field j o fs)) ≡ true
with_field-optional_other [] j o fs p h = refl
with_field-optional_other (k ∷ ks) j none fs p h = h
with_field-optional_other (k ∷ ks) j (some v) fs p h =
    ground (arith, with_field-optional_other ks j (some v) fs)

empty_object-optional : (ks : List String) → are_optional ks (object empty_object) ≡ true
empty_object-optional [] = refl
empty_object-optional (k ∷ ks) = empty_object-optional ks

copy_all-optional :
    (ks names : List String) (report : Value)
    → are_optional names report ≡ true
    → are_optional ks (object (copy_all names report)) ≡ true
copy_all-optional ks [] report h = empty_object-optional ks
copy_all-optional ks (k ∷ names) report h =
    let p = and_true (is_text_or_missing (get k report)) (are_optional names report) h in
    with_field-optional ks k (get k report) _ p.0 (copy_all-optional ks names report p.1)

map-optional : (o : Option String) → is_text_or_missing (map_some string o) ≡ true
map-optional none = refl
map-optional (some s) = refl

-- The properties that a report must have as texts, or not at all, to give an entry.
abbrev pub checked_names : List String
checked_names =
    "currentPhase" ∷ "orgId" ∷ "workspaceId" ∷ "projectId" ∷ "actorId" ∷ "actorType"
    ∷ "correlationId" ∷ "authMode" ∷ []

module _ (recorded_at directory path id_stamp : String) (report : Value) where
  abbrev entry : Value
  entry = new_run_entry recorded_at directory path id_stamp report

  entry-optional :
      are_optional checked_names report ≡ true → are_optional optional_names entry ≡ true
  unfolding new_run_entry optional_fields
  entry-optional h =
      let ks = optional_names in
      let summary = map_some string (extract_string_property report ("summary" ∷ [])) in
      let idea = map_some string (extract_idea_from_report report) in
      let mode = map_some string (extract_mode_from_report report) in
      let gates = get "approvedGates" report in
      let copied = copy_all checked_names report in
      let at_gates = with_field "approvedGates" gates copied in
      let at_mode = with_field "mode" mode at_gates in
      let at_idea = with_field "idea" idea at_mode in
      let at_summary = with_field "summary" summary at_idea in
      let at_path = property "artifactReportPath" (string path) at_summary in
      let at_directory = property "artifactDirectory" (string directory) at_path in
      with_field-optional_other ks "id" (id_or id_stamp (get "id" report))
        (property "recordedAt" (string recorded_at) at_directory) refl
        (with_field-optional_other ks "recordedAt" (some (string recorded_at)) at_directory refl (
          with_field-optional_other ks "artifactDirectory" (some (string directory)) at_path refl (
            with_field-optional_other ks "artifactReportPath" (some (string path)) at_summary refl (
              with_field-optional ks "summary" summary at_idea
                (map-optional (extract_string_property report ("summary" ∷ [])))
                (with_field-optional ks "idea" idea at_mode
                  (map-optional (extract_idea_from_report report))
                  (with_field-optional ks "mode" mode at_gates
                    (map-optional (extract_mode_from_report report))
                    (with_field-optional_other ks "approvedGates" gates copied refl
                      (copy_all-optional ks checked_names report h))))))))

  pub new_run_entry-passes :
      are_optional checked_names report ≡ true → is_project_memory_run_entry entry ≡ true
  unfolding is_project_memory_run_entry new_run_entry
  new_run_entry-passes h =
      rw
        (
          get-with_field "recordedAt" "id",
          get-with_field "artifactDirectory" "id",
          get-with_field "artifactReportPath" "id",
        )
        (entry-optional h)

-- The values that pass as entries when they are loaded.
abbrev pub Passes : List Value → Type 0
Passes vs = All (λ v. is_project_memory_run_entry v ≡ true) vs

select-Passes : (vs : List Value) → Passes (select is_project_memory_run_entry vs)
select-Passes [] = tt
select-Passes (v ∷ vs) =
    if-split Passes (is_project_memory_run_entry v) (v ∷ select is_project_memory_run_entry vs)
      (select is_project_memory_run_entry vs) (λ e. (e, select-Passes vs)) (λ _. select-Passes vs)

module _ (now : String) where
  stored-Passes :
      (b : Bool) (v : Value)
      → Passes (if b then normalize_memory now v else create_default_project_memory now).runs
  unfolding normalize_memory create_default_project_memory
  stored-Passes true v = select-Passes (list_or_empty (get "runs" v))
  stored-Passes false v = tt

  loaded-Passes :
      (file : MemoryFile) (reports : List (String × Value)) (m : ProjectMemory)
      → load_project_memory now (record { memory = file; reports = reports }) ≡ some m
      → Passes m.runs
  unfolding load_project_memory create_default_project_memory
  loaded-Passes missing reports m h = subst (λ (k : ProjectMemory). Passes k.runs) (some_inj.0 h) tt
  loaded-Passes blank reports m h = subst (λ (k : ProjectMemory). Passes k.runs) (some_inj.0 h) tt
  loaded-Passes broken reports m h = cc
  loaded-Passes (holds v) reports m h =
      subst (λ (k : ProjectMemory). Passes k.runs) (some_inj.0 h)
        (stored-Passes (is_truthy (some v)) v)

  pub load_project_memory-Passes :
      (disk : Disk) (m : ProjectMemory) → load_project_memory now disk ≡ some m → Passes m.runs
  load_project_memory-Passes disk m h = loaded-Passes disk.memory disk.reports m h

  -- Whatever the file of the memory holds, each of the runs that are loaded from it has a text as its
  -- time, its directory and its report's path, and a text, or nothing, under each of the eleven optional
  -- names that the type declares as texts. The `id`, which the type demands, is not checked.
  pub load_project_memory-IsRunEntry :
      (disk : Disk) (m : ProjectMemory)
      → load_project_memory now disk ≡ some m
      → All IsRunEntry m.runs
  load_project_memory-IsRunEntry disk m h =
      All-map guard-IsRunEntry m.runs (load_project_memory-Passes disk m h)
