-- ===== src/Memory/Latest.antt =====
-- A run's directory holds what was written last: run-store.ts, lines 454 to 549.
use mathlib.Core.Logic.{ite}
use Prim.Native.String.{String}
use code_kit_ultra.Base.{◌≢◌, List, [], ◌∷◌, ◌++◌, All, Option, some, same, if◌then◌else◌}
use code_kit_ultra.Memory.Values.{Value}
use code_kit_ultra.Memory.Bundles.{
  Artifact, intake, plan, gates, adapters, execution_log, run_state, audit_log, RunFiles,
  update_artifact, carry_out,
}

pub Artifact-discrete : Discrete Artifact
Artifact-discrete = hlevel

-- The value that the updates leave of an artifact that had the value `o`.
abbrev pub latest : List (Artifact × Value) → Artifact → Option Value → Option Value
latest [] a o = o
latest ((b, v) ∷ us) a o = latest us a (ite (Artifact-discrete b a) (some v) o)

abbrev named : String → Option Artifact
named s =
    if same s "intake.json"
    then some intake
    else if same s "plan.json"
    then some plan
    else if same s "gates.json"
    then some gates
    else if same s "adapters.json"
    then some adapters
    else if same s "execution-log.json"
    then some execution_log
    else if same s "state.json"
    then some run_state
    else some audit_log

-- No put of the artifact is among them.
abbrev pub Spares : Artifact → List (Artifact × Value) → Type 0
Spares a ps = All (λ p. p.0 ≢ a) ps

-- Updates and puts in any order, but that the puts of an artifact are carried out in the order in which
-- they were started: from the files before, with the updates so far.
pub data Reaches (r : RunFiles) : List (Artifact × Value) → RunFiles → Type 0 where
  begun : Reaches r [] r
  updated :
      {us : List (Artifact × Value)} {s : RunFiles} (a : Artifact) (v : Value)
      → Reaches r us s
      → Reaches r (us ++ (a, v) ∷ []) (update_artifact a v s)
  carried_out :
      {us : List (Artifact × Value)} {files : List (String × Value)} (a : Artifact) (v : Value)
      (earlier later : List (Artifact × Value))
      → Spares a earlier
      → Reaches r us (record { files = files; puts = earlier ++ (a, v) ∷ later })
      → Reaches r us (record { files = carry_out a v files; puts = earlier ++ later })
