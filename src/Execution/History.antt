-- ===== src/Execution/History.antt =====
-- The growth of the logs and the outcomes: execution-engine.ts.
use code_kit_ultra.Base.{String, ℕ, ◌≡◌, refl, sym, ◌∙◌, List, [], ◌∷◌, ◌++◌}
use mathlib.Core.List.{append-nil, append_assoc}
use code_kit_ultra.Shared.{PlanTask}
use code_kit_ultra.Core.PolicyEngine.{PolicyRules}
use code_kit_ultra.Execution.Machine.{Machine, Call, Adapter, HealingReply}
use code_kit_ultra.Execution.Writes.{
  push_step_log, upsert_adapter_summary, update_state, record_outcome,
}
use code_kit_ultra.Execution.Task.{execute_task}
use code_kit_ultra.Execution.Run.{LearningStore, set_tasks, execute_run_bundle}
use code_kit_ultra.Execution.Keeps.{IsStable}
use code_kit_ultra.Execution.Keeps.Tasks.{Keeps-execute_task}
use code_kit_ultra.Execution.Keeps.Runs.{Keeps-execute_run_bundle}

-- `ys` is `xs` with items added at its end.
abbrev pub Extends {ℓ} : {A : Type ℓ} → List A → List A → Type ℓ
Extends xs ys = (more : List _) × (ys ≡ xs ++ more)

module _ {ℓ} {A : Type ℓ} where
  Extends-self : (xs : List A) → Extends xs xs
  Extends-self xs = ([], sym (append-nil xs))

  Extends-trans : (xs ys zs : List A) → Extends xs ys → Extends ys zs → Extends xs zs
  Extends-trans xs ys zs (m, e) (n, f) = (m ++ n, rw (f, e) (append_assoc xs m n))

module _ {W : Type 0} where
  -- The log and the audit log of `b` continue those of `a`.
  pub record Grows (a b : Machine W) : Type 0 where
    pub steps : Extends a.bundle.steps b.bundle.steps
    pub audit : Extends a.audit b.audit

  Grows-stable : IsStable Grows
  unfolding push_step_log upsert_adapter_summary update_state
  Grows-stable = record {
    reflexive = λ m. record { steps = Extends-self _; audit = Extends-self _ };
    transitive = λ a b c h k. record {
      steps = Extends-trans _ _ _ h.steps k.steps;
      audit = Extends-trans _ _ _ h.audit k.audit;
    };
    audited = λ m e. record { steps = Extends-self _; audit = (e ∷ [], refl) };
    logged = λ m e. record { steps = (e ∷ [], refl); audit = Extends-self _ };
    summarized = λ m s. record { steps = Extends-self _; audit = Extends-self _ };
    updated = λ m f. record { steps = Extends-self _; audit = Extends-self _ };
    called = λ m w. record { steps = Extends-self _; audit = Extends-self _ };
  }

  -- A task reports no outcome and leaves the plan alone.
  pub record KeepsPlan (a b : Machine W) : Type 0 where
    pub tasks : b.bundle.tasks ≡ a.bundle.tasks
    pub outcomes : b.outcomes ≡ a.outcomes
    pub on_disk : b.on_disk ≡ a.on_disk

  KeepsPlan-stable : IsStable KeepsPlan
  unfolding push_step_log upsert_adapter_summary update_state
  KeepsPlan-stable = record {
    reflexive = λ m. record { tasks = refl; outcomes = refl; on_disk = refl };
    transitive = λ a b c h k. record {
      tasks = k.tasks ∙ h.tasks;
      outcomes = k.outcomes ∙ h.outcomes;
      on_disk = k.on_disk ∙ h.on_disk;
    };
    audited = λ m e. record { tasks = refl; outcomes = refl; on_disk = refl };
    logged = λ m e. record { tasks = refl; outcomes = refl; on_disk = refl };
    summarized = λ m s. record { tasks = refl; outcomes = refl; on_disk = refl };
    updated = λ m f. record { tasks = refl; outcomes = refl; on_disk = refl };
    called = λ m w. record { tasks = refl; outcomes = refl; on_disk = refl };
  }

module _ {W : Type 0} (rules : PolicyRules) (heal : PlanTask → String → Call W HealingReply)
    (adapters : List (Adapter W)) where
  pub execute_task-KeepsPlan :
      (fuel : ℕ) (t : PlanTask) (i : ℕ) (m : Machine W)
      → KeepsPlan m (execute_task rules heal adapters fuel t i m).1
  execute_task-KeepsPlan fuel t i m =
      (Keeps-execute_task KeepsPlan KeepsPlan-stable rules heal adapters fuel t i).at m

  -- A run erases nothing: the execution log and the audit log afterwards are those before with
  -- entries added at the end, however the run ends.
  pub execute_run_bundle-Grows :
      (store : LearningStore) (fuel : ℕ) (m : Machine W)
      → Grows m (execute_run_bundle rules heal adapters store fuel m).1
  unfolding set_tasks record_outcome
  execute_run_bundle-Grows store fuel m =
      (Keeps-execute_run_bundle Grows Grows-stable
          (λ m ts. record { steps = Extends-self _; audit = Extends-self _ })
          (λ m b. record { steps = Extends-self _; audit = Extends-self _ }) rules heal adapters
          store fuel).at
        m
