-- ===== src/Automation/Orchestrator/Confined.antt =====
-- automation-orchestrator.ts: what a mode lets the cycles touch, over a sequence of cycles and of
-- changes of the configuration.
use code_kit_ultra.Base.{
  String, ℕ, ◌≡◌, refl, ◌∙◌, List, [], ◌∷◌, Option, none, some, Bool, true, false,
}
use mathlib.Core.Path.{subst}
use code_kit_ultra.Governance.Numbers.{Numbers}
use code_kit_ultra.Automation.Orchestrator.{
  AutomationMode, safe, balanced, aggressive, AutomationOrchestrator, Tick, start, stop_at, stop,
  set_mode, set_enabled, acknowledge_alerts, heal_strategies, roll_back_strategies,
  run_safe_automations, run_balanced_automations, run_aggressive_automations, run_in_mode,
  run_automation_cycle,
}

pub data Step (N : Type 0) : Type 0 where
  cycle : Tick N → Step N
  change_mode : AutomationMode → Step N
  change_enabled : Bool → Step N

abbrev max_mode : AutomationMode → AutomationMode → AutomationMode
max_mode safe m = m
max_mode balanced safe = balanced
max_mode balanced m = m
max_mode aggressive m = aggressive

max_self : (m : AutomationMode) → max_mode m m ≡ m
max_self safe = refl
max_self balanced = refl
max_self aggressive = refl

max_max : (m n : AutomationMode) → max_mode m (max_mode m n) ≡ max_mode m n
max_max safe n = refl
max_max balanced safe = refl
max_max balanced balanced = refl
max_max balanced aggressive = refl
max_max aggressive n = refl

-- The most aggressive of the mode and of those that are set.
abbrev pub highest_mode : {N : Type 0} → AutomationMode → List (Step N) → AutomationMode
highest_mode m [] = m
highest_mode m (cycle c ∷ steps) = highest_mode m steps
highest_mode m (change_mode m' ∷ steps) = max_mode m (highest_mode m' steps)
highest_mode m (change_enabled b ∷ steps) = highest_mode m steps

max-highest_mode :
    {N : Type 0} (m : AutomationMode) (xs : List (Step N))
    → max_mode m (highest_mode m xs) ≡ highest_mode m xs
max-highest_mode m [] = max_self m
max-highest_mode m (cycle c ∷ xs) = max-highest_mode m xs
max-highest_mode m (change_mode m' ∷ xs) = max_max m (highest_mode m' xs)
max-highest_mode m (change_enabled b ∷ xs) = max-highest_mode m xs

module _ {N : Type 0} where
  -- What the steps may touch: up to safe, neither the healing nor the rollbacks, and up to balanced
  -- not the rollbacks.
  abbrev pub IsConfined :
      AutomationMode → AutomationOrchestrator N → AutomationOrchestrator N → Type 0
  IsConfined safe s t = (t.healing ≡ s.healing) × (t.rollbacks ≡ s.rollbacks)
  IsConfined balanced s t = t.rollbacks ≡ s.rollbacks
  IsConfined aggressive s t = Unit

  max-IsConfined :
      (m n : AutomationMode) (s t u : AutomationOrchestrator N)
      → IsConfined m s t
      → IsConfined n t u
      → IsConfined (max_mode m n) s u
  max-IsConfined safe safe s t u h k = (k.0 ∙ h.0, k.1 ∙ h.1)
  max-IsConfined safe balanced s t u h k = k ∙ h.1
  max-IsConfined safe aggressive s t u h k = tt
  max-IsConfined balanced safe s t u h k = k.1 ∙ h
  max-IsConfined balanced balanced s t u h k = k ∙ h
  max-IsConfined balanced aggressive s t u h k = tt
  max-IsConfined aggressive n s t u h k = tt

  -- What a change of the configuration leaves.
  pub record Leaves (s t : AutomationOrchestrator N) : Type 0 where
    pub mode : t.mode ≡ s.mode
    pub counters : t.counters ≡ s.counters
    pub alerts : t.alerts ≡ s.alerts
    pub healing : t.healing ≡ s.healing
    pub rollbacks : t.rollbacks ≡ s.rollbacks

  stop_at-Leaves : (o : Option ℕ) (s : AutomationOrchestrator N) → Leaves s (stop_at o s)
  unfolding stop_at
  stop_at-Leaves none s = record {
    mode = refl;
    counters = refl;
    alerts = refl;
    healing = refl;
    rollbacks = refl;
  }
  stop_at-Leaves (some t) s = record {
    mode = refl;
    counters = refl;
    alerts = refl;
    healing = refl;
    rollbacks = refl;
  }

  pub set_enabled-Leaves : (b : Bool) (s : AutomationOrchestrator N) → Leaves s (set_enabled b s)
  unfolding set_enabled start stop
  set_enabled-Leaves true s = record {
    mode = refl;
    counters = refl;
    alerts = refl;
    healing = refl;
    rollbacks = refl;
  }
  set_enabled-Leaves false s =
      let k = stop_at-Leaves s.interval (record s { enabled = false }) in
      record {
        mode = k.mode;
        counters = k.counters;
        alerts = k.alerts;
        healing = k.healing;
        rollbacks = k.rollbacks;
      }

  Leaves-IsConfined :
      (m : AutomationMode) (s t : AutomationOrchestrator N) → Leaves s t → IsConfined m s t
  Leaves-IsConfined safe s t l = (l.healing, l.rollbacks)
  Leaves-IsConfined balanced s t l = l.rollbacks
  Leaves-IsConfined aggressive s t l = tt

  set_mode-IsConfined :
      (m n : AutomationMode) (s : AutomationOrchestrator N) → IsConfined n s (set_mode m s)
  unfolding set_mode
  set_mode-IsConfined m safe s = (refl, refl)
  set_mode-IsConfined m balanced s = refl
  set_mode-IsConfined m aggressive s = tt

  -- A step that leaves the mode, and what follows it.
  first-IsConfined :
      (xs : List (Step N)) (s t u : AutomationOrchestrator N)
      → IsConfined s.mode s t
      → t.mode ≡ s.mode
      → IsConfined (highest_mode t.mode xs) t u
      → IsConfined (highest_mode s.mode xs) s u
  first-IsConfined xs s t u h e k =
      subst (λ m. IsConfined m s u) (max-highest_mode s.mode xs)
        (max-IsConfined s.mode (highest_mode s.mode xs) s t u h
          (subst (λ m. IsConfined (highest_mode m xs) t u) e k))

  module _ (decimal : ℕ → String) (num : Numbers N) where
    unfoldable pub take_step : Step N → AutomationOrchestrator N → AutomationOrchestrator N
    take_step (cycle c) s = run_automation_cycle decimal num c s
    take_step (change_mode m) s = set_mode m s
    take_step (change_enabled b) s = set_enabled b s

    unfoldable pub take_steps : List (Step N) → AutomationOrchestrator N → AutomationOrchestrator N
    take_steps [] s = s
    take_steps (x ∷ xs) s = take_steps xs (take_step x s)

    run_in_mode-IsConfined :
        (m : AutomationMode) (c : Tick N) (s : AutomationOrchestrator N)
        → IsConfined m s (run_in_mode decimal num m c s)
          × ((run_in_mode decimal num m c s).mode ≡ s.mode)
    unfolding run_in_mode run_safe_automations run_balanced_automations run_aggressive_automations
        acknowledge_alerts heal_strategies roll_back_strategies
    run_in_mode-IsConfined safe c s = ((refl, refl), refl)
    run_in_mode-IsConfined balanced c s = (refl, refl)
    run_in_mode-IsConfined aggressive c s = (tt, refl)

    -- Whatever the cycles and the changes of the configuration: as long as the mode is safe, neither
    -- the healing engine nor the rollback service changes, and as long as it is never aggressive, the
    -- rollback service does not.
    pub take_steps-IsConfined :
        (xs : List (Step N)) (s : AutomationOrchestrator N)
        → IsConfined (highest_mode s.mode xs) s (take_steps xs s)
    unfolding take_steps take_step run_automation_cycle set_mode
    take_steps-IsConfined [] s =
        Leaves-IsConfined s.mode s s
          (record { mode = refl; counters = refl; alerts = refl; healing = refl; rollbacks = refl })
    take_steps-IsConfined (cycle c ∷ xs) s =
        let k = run_in_mode-IsConfined s.mode c s in
        first-IsConfined xs s (run_in_mode decimal num s.mode c s) _ k.0 k.1
          (take_steps-IsConfined xs (run_in_mode decimal num s.mode c s))
    take_steps-IsConfined (change_mode m ∷ xs) s =
        max-IsConfined s.mode (highest_mode m xs) s (set_mode m s) _
          (set_mode-IsConfined m s.mode s) (take_steps-IsConfined xs (set_mode m s))
    take_steps-IsConfined (change_enabled b ∷ xs) s =
        let l = set_enabled-Leaves b s in
        first-IsConfined xs s (set_enabled b s) _ (Leaves-IsConfined s.mode s _ l) l.mode
          (take_steps-IsConfined xs (set_enabled b s))
