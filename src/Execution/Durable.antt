-- ===== src/Execution/Durable.antt =====
-- What the run's directory holds when the engine stops, and the distinct adapter summaries:
-- execution-engine.ts with memory/src/run-store.ts.
use code_kit_ultra.Base.{
  String, ℕ, ◌≡◌, refl, sym, ◌∙◌, List, [], ◌∷◌, Option, none, some, true, false, same, eq_iff,
  arith, Bool-cases, inl, inr, get_elem?,
}
use code_kit_ultra.Shared.{PlanTask, AdapterSummary}
use code_kit_ultra.Core.PolicyEngine.{PolicyRules}
use code_kit_ultra.Execution.Machine.{Machine, Call, returned, threw, ◌>>=◌, Adapter, HealingReply}
use code_kit_ultra.Execution.Writes.{
  upsert, push_step_log, upsert_adapter_summary, update_state, record_outcome,
}
use code_kit_ultra.Execution.Puts.{
  state_after, steps_after, executions_after, state_after-append, steps_after-append,
  executions_after-append,
}
use code_kit_ultra.Execution.Run.{
  LearningStore, set_tasks, execute_run_bundle, load, reload, retry_task, retry_loaded, retry_index,
  retry_at, retry_target, index_of,
}
use code_kit_ultra.Execution.Keeps.{
  IsStable, Keeps, Keeps-bind, Keeps-update, Keeps-audit, Keeps-gets,
}
use code_kit_ultra.Execution.Keeps.Tasks.{Keeps-execute_task}
use code_kit_ultra.Execution.Keeps.Runs.{Keeps-execute_run_bundle}

-- The files of the run hold the state, the log and the summaries of the bundle in memory, and do so
-- still when the puts have been carried out, those of a file in their order.
pub record IsSynced {W : Type 0} (m : Machine W) : Type 0 where
  pub state : m.saved.state ≡ m.bundle.state
  pub steps : m.saved.steps ≡ m.bundle.steps
  pub executions : m.saved.executions ≡ m.bundle.executions
  pub state_put : state_after m.puts m.saved.state ≡ m.bundle.state
  pub steps_put : steps_after m.puts m.saved.steps ≡ m.bundle.steps
  pub executions_put : executions_after m.puts m.saved.executions ≡ m.bundle.executions

-- `id` is the task of no summary in the list.
abbrev pub IsFresh : String → List AdapterSummary → Type 0
IsFresh id [] = Unit
IsFresh id (x ∷ xs) = (same x.task_id id ≡ false) × IsFresh id xs

-- No two summaries are of one task.
abbrev pub IsDistinct : List AdapterSummary → Type 0
IsDistinct [] = Unit
IsDistinct (x ∷ xs) = IsFresh x.task_id xs × IsDistinct xs

same_comm : (s t : String) → same s t ≡ same t s
same_comm s t = ground (arith, eq_iff s t, eq_iff t s)

IsFresh-upsert :
    (id : String) (s : AdapterSummary) (xs : List AdapterSummary)
    → same s.task_id id ≡ false
    → IsFresh id xs
    → IsFresh id (upsert s xs)
unfolding upsert
IsFresh-upsert id s [] ne h = (ne, tt)
IsFresh-upsert id s (x ∷ xs) ne h = ground (arith, IsFresh-upsert id s xs ne h.1)

IsFresh-same :
    (i j : String) (xs : List AdapterSummary) → same i j ≡ true → IsFresh i xs → IsFresh j xs
IsFresh-same i j [] e h = tt
IsFresh-same i j (x ∷ xs) e h =
    (ground (arith, eq_iff i j, eq_iff x.task_id i, eq_iff x.task_id j), IsFresh-same i j xs e h.1)

upsert-IsDistinct :
    (s : AdapterSummary) (xs : List AdapterSummary) → IsDistinct xs → IsDistinct (upsert s xs)
unfolding upsert
upsert-IsDistinct s [] h = (tt, tt)
upsert-IsDistinct s (x ∷ xs) h = elim (Bool-cases (same x.task_id s.task_id)) [
  | inl e ↦ rw e (IsFresh-same x.task_id s.task_id xs e h.0, h.1)
  | inr e ↦ rw e (
    IsFresh-upsert x.task_id s xs (same_comm s.task_id x.task_id ∙ e) h.0,
    upsert-IsDistinct s xs h.1,
  )
]

module _ {W : Type 0} where
  abbrev KeepsFiles : Machine W → Machine W → Type 0
  KeepsFiles a b = IsSynced a → IsSynced b

  abbrev KeepsDistinct : Machine W → Machine W → Type 0
  KeepsDistinct a b = IsDistinct a.bundle.executions → IsDistinct b.bundle.executions

  -- A change that touches neither the bundle nor the files.
  carry :
      (a b : Machine W) → a.bundle ≡ b.bundle → a.saved ≡ b.saved → a.puts ≡ b.puts → KeepsFiles a b
  carry a b e f g h = record {
    state = rw (← e, ← f) h.state;
    steps = rw (← e, ← f) h.steps;
    executions = rw (← e, ← f) h.executions;
    state_put = rw (← e, ← f, ← g) h.state_put;
    steps_put = rw (← e, ← f, ← g) h.steps_put;
    executions_put = rw (← e, ← f, ← g) h.executions_put;
  }

  KeepsFiles-stable : IsStable KeepsFiles
  unfolding push_step_log upsert_adapter_summary update_state
  KeepsFiles-stable = record {
    reflexive = λ m h. h;
    transitive = λ a b c h k s. k (h s);
    audited = λ m e. carry _ _ refl refl refl;
    logged = λ m e h. record {
      state = h.state;
      steps = refl;
      executions = h.executions;
      state_put = state_after-append m.puts _ m.saved.state ∙ h.state_put;
      steps_put = steps_after-append m.puts _ _;
      executions_put = executions_after-append m.puts _ m.saved.executions ∙ h.executions_put;
    };
    summarized = λ m s h. record {
      state = h.state;
      steps = h.steps;
      executions = refl;
      state_put = state_after-append m.puts _ m.saved.state ∙ h.state_put;
      steps_put = steps_after-append m.puts _ m.saved.steps ∙ h.steps_put;
      executions_put = executions_after-append m.puts _ _;
    };
    updated = λ m f h. record {
      state = refl;
      steps = h.steps;
      executions = h.executions;
      state_put = state_after-append m.puts _ _;
      steps_put = steps_after-append m.puts _ m.saved.steps ∙ h.steps_put;
      executions_put = executions_after-append m.puts _ m.saved.executions ∙ h.executions_put;
    };
    called = λ m w. carry _ _ refl refl refl;
  }

  KeepsDistinct-stable : IsStable KeepsDistinct
  unfolding push_step_log upsert_adapter_summary update_state
  KeepsDistinct-stable = record {
    reflexive = λ m h. h;
    transitive = λ a b c h k d. k (h d);
    audited = λ m e h. h;
    logged = λ m e h. h;
    summarized = λ m s. upsert-IsDistinct s m.bundle.executions;
    updated = λ m f h. h;
    called = λ m w h. h;
  }

  load_found :
      (e : String) (m : Machine W)
      → m.on_disk ≡ true
      → load e m ≡ (returned tt, record m { bundle = m.saved })
  unfolding load reload ◌>>=◌
  load_found e m h = ground arith

  load_missing : (e : String) (m : Machine W) → m.on_disk ≡ false → load e m ≡ (threw e, m)
  unfolding load reload ◌>>=◌
  load_missing e m h = ground arith

  load-IsSynced : (e : String) (m : Machine W) → IsSynced m → IsSynced (load e m).1
  load-IsSynced e m h = elim (Bool-cases m.on_disk) [
    | inl found ↦ rw (load_found e m found) (record {
      state = refl;
      steps = refl;
      executions = refl;
      state_put = h.state_put ∙ sym h.state;
      steps_put = h.steps_put ∙ sym h.steps;
      executions_put = h.executions_put ∙ sym h.executions;
    })
    | inr missing ↦ rw (load_missing e m missing) h
  ]

  module _ (rules : PolicyRules) (heal : PlanTask → String → Call W HealingReply)
      (adapters : List (Adapter W)) where
    -- However a run ends, also by an exception, the writes of the run store leave in its directory the
    -- state, the log and the summaries that are in memory, and so do the puts that were started, if those
    -- of a file are carried out in their order, if both did so at the start.
    pub execute_run_bundle-IsSynced :
        (store : LearningStore) (fuel : ℕ) (m : Machine W)
        → IsSynced m
        → IsSynced (execute_run_bundle rules heal adapters store fuel m).1
    unfolding set_tasks record_outcome
    execute_run_bundle-IsSynced store fuel m h =
        (Keeps-execute_run_bundle KeepsFiles KeepsFiles-stable
            (λ m ts h. record {
              state = h.state;
              steps = h.steps;
              executions = h.executions;
              state_put = h.state_put;
              steps_put = h.steps_put;
              executions_put = h.executions_put;
            })
            (λ m b. carry _ _ refl refl refl) rules heal adapters store fuel).at
          m h

    -- A run that starts with at most one summary of each task keeps at most one of each, however
    -- often the task is attempted.
    pub execute_run_bundle-IsDistinct :
        (store : LearningStore) (fuel : ℕ) (m : Machine W)
        → IsDistinct m.bundle.executions
        → IsDistinct (execute_run_bundle rules heal adapters store fuel m).1.bundle.executions
    unfolding set_tasks record_outcome
    execute_run_bundle-IsDistinct store fuel m h =
        (Keeps-execute_run_bundle KeepsDistinct KeepsDistinct-stable (λ m ts h. h) (λ m b h. h)
            rules heal adapters store fuel).at
          m h

    Keeps-retry_at :
        (fuel : ℕ) (step : Option String) (i : ℕ) (t : Option PlanTask)
        → Keeps KeepsFiles (retry_at rules heal adapters fuel step i t)
    unfolding retry_at
    Keeps-retry_at fuel step i none = record { at = λ m h. h }
    Keeps-retry_at fuel step i (some t) =
        Keeps-bind KeepsFiles KeepsFiles-stable _ _ (Keeps-update KeepsFiles KeepsFiles-stable _)
          λ _.
            Keeps-bind KeepsFiles KeepsFiles-stable _ _
              (Keeps-audit KeepsFiles KeepsFiles-stable _ _)
              λ _.
                Keeps-bind KeepsFiles KeepsFiles-stable _ _
                  (Keeps-execute_task KeepsFiles KeepsFiles-stable rules heal adapters fuel t i)
                  λ _. record { at = load-IsSynced _ }

    Keeps-retry_index :
        (fuel : ℕ) (step : Option String) (i : Option ℕ)
        → Keeps KeepsFiles (retry_index rules heal adapters fuel step i)
    unfolding retry_index
    Keeps-retry_index fuel step none = record { at = λ m h. h }
    Keeps-retry_index fuel step (some i) =
        Keeps-bind KeepsFiles KeepsFiles-stable _ _ (Keeps-gets KeepsFiles KeepsFiles-stable _)
          λ ts. Keeps-retry_at fuel step i (get_elem? ts i)

    -- A retry that no put precedes starts from the files and leaves memory and files equal, whatever was
    -- in memory before and however the retry ends, if the run is on disk.
    pub retry_task-IsSynced :
        (fuel : ℕ) (target : Option String) (m : Machine W)
        → m.on_disk ≡ true
        → m.puts ≡ []
        → IsSynced (retry_task rules heal adapters fuel target m).1
    unfolding retry_task retry_loaded ◌>>=◌
    retry_task-IsSynced fuel target m e p = rw (load_found "Run bundle not found" m e) (
        (Keeps-retry_index fuel _ (index_of (retry_target target m.saved) m.saved.tasks)).at
          (record m { bundle = m.saved })
          (record {
            state = refl;
            steps = refl;
            executions = refl;
            state_put = rw p refl;
            steps_put = rw p refl;
            executions_put = rw p refl;
          }))
