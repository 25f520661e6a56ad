-- ===== src/Memory/Bundles.antt =====
-- The files of a run: run-store.ts, lines 454 to 549, and the put of local-storage.ts, the storage
-- provider by default, which writes a file of the same directory at a later time.
use Prim.Native.String.{String}
use code_kit_ultra.Base.{
  List, [], ◌∷◌, ◌++◌, Option, none, some, lookup, insert, or_default, if◌then◌else◌,
}
use code_kit_ultra.Memory.Values.{
  Value, string, array, object, empty_array, empty_object, property, get, with_field, is_truthy,
}

pub data Artifact : Type 0 where
  intake plan gates adapters execution_log run_state audit_log : Artifact

unfoldable pub file_name : Artifact → String
file_name intake = "intake.json"
file_name plan = "plan.json"
file_name gates = "gates.json"
file_name adapters = "adapters.json"
file_name execution_log = "execution-log.json"
file_name run_state = "state.json"
file_name audit_log = "audit-log.json"

-- The files of a run's directory by their names, and the puts of the provider that were started and
-- are still to be carried out.
pub record RunFiles : Type 0 where
  pub files : List (String × Value)
  pub puts : List (Artifact × Value)

pub record RunBundle : Type 0 where
  pub intake : Value
  pub plan : Value
  pub gates : Value
  pub adapters : Value
  pub execution_log : Value
  pub state : Value
  pub audit_log : Value

-- `value || undefined`
abbrev pub present : Option Value → Option Value
present o = if is_truthy o then o else none

abbrev pub no_elements : Value
no_elements = array empty_array

unfoldable pub no_executions : String → Value → Value
no_executions run_id given = object (
    property "runId" (string run_id) (
      with_field "createdAt" (get "createdAt" given)
        (property "executions" no_elements empty_object)))

unfoldable pub no_steps : String → Value → Value
no_steps run_id given = object (
    property "runId" (string run_id)
      (with_field "createdAt" (get "createdAt" given) (property "steps" no_elements empty_object)))

unfoldable pub no_events : String → Value → Value
no_events run_id given =
    let created = get "createdAt" given in
    object (
      property "runId" (string run_id) (
        with_field "createdAt" created
          (with_field "updatedAt" created (property "events" no_elements empty_object))))

abbrev pub parts_of :
    String
    → (Artifact → Option Value)
    → Option Value
    → Option Value
    → Option Value
    → Option RunBundle
parts_of run_id read (some i) (some p) (some s) = some (record {
  intake = i;
  plan = p;
  gates = or_default (read gates) no_elements;
  adapters = or_default (read adapters) (no_executions run_id i);
  execution_log = or_default (read execution_log) (no_steps run_id i);
  state = s;
  audit_log = or_default (read audit_log) (no_events run_id i);
})
parts_of run_id read i p s = none

-- Lines 537 to 548.
unfoldable pub assemble : String → (Artifact → Option Value) → Option RunBundle
assemble run_id read = parts_of run_id read (read intake) (read plan) (read run_state)

unfoldable pub load_run_bundle : String → List (String × Value) → Option RunBundle
load_run_bundle run_id files = assemble run_id (λ a. present (lookup (file_name a) files))

-- `updateIntake` and the like: the file is written, and a put of it started.
unfoldable pub update_artifact : Artifact → Value → RunFiles → RunFiles
update_artifact a value r = record {
  files = insert (file_name a) value r.files;
  puts = r.puts ++ (a, value) ∷ [];
}

-- `LocalStorageProvider.put`, when its write is carried out.
unfoldable pub carry_out : Artifact → Value → List (String × Value) → List (String × Value)
carry_out a value files = insert (file_name a) value files
