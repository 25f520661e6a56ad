-- ===== src/Repair/Recorded.antt =====
-- The log of a run's attempts: healing-engine.ts, lines 32 to 98.
use Prim.Native.String.{String}
use code_kit_ultra.Base.{
  ◌≡◌, ap, ◌∙◌, List, [], ◌∷◌, ◌++◌, not, or_default, lookup-insert_self, lookup-insert_other, ◌≢◌,
  if-split,
}
use code_kit_ultra.Repair.Strategies.{HealingContext, HealingStrategy, Files}
use code_kit_ultra.Repair.Engine.{
  HealingPolicy, HealingStore, HealingAttempt, is_observe, requires_approval, save_healing_attempts,
  load_healing_attempts, update_healing_stats, close_attempt, apply_strategy, try_strategy, decide,
  candidates_of, attempt_healing,
}

saved-other :
    {W : Type 0} (run other : String) (attempts : List HealingAttempt) (s : HealingStore W)
    → run ≢ other
    → load_healing_attempts other (save_healing_attempts run attempts s)
      ≡ load_healing_attempts other s
unfolding save_healing_attempts load_healing_attempts
saved-other run other attempts s h =
    ap (λ o. or_default o []) (lookup-insert_other run other attempts s.logs h)

module _ {W : Type 0} (before : List HealingAttempt) where
  -- The log of the run ends in the attempt that is returned, and no other log changes.
  abbrev Logs : String → HealingStore W → HealingAttempt × HealingStore W → Type 0
  Logs run s (a, t) =
      (load_healing_attempts run t ≡ before ++ a ∷ [])
      × ((other : String)
          → run ≢ other
          → load_healing_attempts other t ≡ load_healing_attempts other s)

  close_attempt-Logs :
      (a : HealingAttempt) (s : HealingStore W) → Logs a.run_id s (close_attempt before a s)
  unfolding close_attempt save_healing_attempts load_healing_attempts
  close_attempt-Logs a s = (
    ap (λ o. or_default o []) (lookup-insert_self a.run_id (before ++ a ∷ []) s.logs),
    λ other h. saved-other a.run_id other (before ++ a ∷ []) s h,
  )

  module _ (files : Files W) (policy : HealingPolicy) (c : HealingContext) where
    apply_strategy-Logs :
        (chosen : HealingStrategy W) (a : HealingAttempt) (s : HealingStore W)
        → Logs a.run_id s (apply_strategy files c chosen before a s)
    unfolding apply_strategy update_healing_stats load_healing_attempts
    apply_strategy-Logs chosen a s = close_attempt-Logs _ _

    decide-Logs :
        (candidates : List (HealingStrategy W)) (a : HealingAttempt) (s : HealingStore W)
        → Logs a.run_id s (decide files policy c candidates before a s)
    unfolding decide try_strategy
    decide-Logs [] a s = close_attempt-Logs _ s
    decide-Logs (chosen ∷ rest) a s =
        let P = Logs a.run_id s in
        if-split P (not policy.enabled) _ _ (λ _. close_attempt-Logs _ s)
          (λ _.
            if-split P (is_observe policy.mode) _ _ (λ _. close_attempt-Logs _ s)
              (λ _.
                if-split P (requires_approval chosen policy) _ _ (λ _. close_attempt-Logs _ s)
                  (λ _. apply_strategy-Logs chosen _ s)))

-- However an attempt to heal ends, the log of its run is the one before with the attempt, as it is
-- returned, added once at the end, and the logs of the other runs are as they were.
pub attempt_healing-logs :
    {W : Type 0} (lower : String → String) (files : Files W) (policy : HealingPolicy)
    (c : HealingContext) (s : HealingStore W)
    → let (a, t) = attempt_healing lower files policy c s in
      (load_healing_attempts c.run_id t ≡ load_healing_attempts c.run_id s ++ a ∷ [])
      × ((other : String)
          → c.run_id ≢ other
          → load_healing_attempts other t ≡ load_healing_attempts other s)
unfolding attempt_healing
attempt_healing-logs lower files policy c s =
    let logged = decide-Logs _ files policy c (candidates_of lower files c) _ _ in
    (logged.0, λ other h. logged.1 other h ∙ saved-other c.run_id other _ s h)
