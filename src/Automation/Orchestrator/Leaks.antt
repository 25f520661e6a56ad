-- ===== src/Automation/Orchestrator/Leaks.antt =====
-- automation-orchestrator.ts, lines 82 to 105 and 354 to 361: the timers that run.
use code_kit_ultra.Base.{
  ℕ, zero, suc, ◌+◌, ◌<◌, ◌≡◌, ◌∙◌, ap, List, [], ◌∷◌, ◌++◌, true, false, length, length-append,
  All, All-append, All-map, arith,
}
use code_kit_ultra.Automation.Orchestrator.{
  AutomationOrchestrator, start, clear_interval, stop_at, stop, set_enabled,
}

-- `setEnabled(true)`, some times in a row.
unfoldable pub enable_times : {N : Type 0} → ℕ → AutomationOrchestrator N → AutomationOrchestrator N
enable_times zero s = s
enable_times (suc n) s = set_enabled true (enable_times n s)

-- The next timer has a number of its own.
abbrev pub IsFresh : {N : Type 0} → AutomationOrchestrator N → Type 0
IsFresh s = All (λ t. t < s.next) s.timers

clear_interval-fresh :
    (t : ℕ) (ts : List ℕ) → All (λ u. u < t) ts → clear_interval t (ts ++ t ∷ []) ≡ ts
unfolding clear_interval
clear_interval-fresh t [] h = ground arith
clear_interval-fresh t (u ∷ ts) h = ground (arith, clear_interval-fresh t ts h.1)

module _ {N : Type 0} where
  set_enabled-IsFresh : (s : AutomationOrchestrator N) → IsFresh s → IsFresh (set_enabled true s)
  unfolding set_enabled start
  set_enabled-IsFresh s h =
      All-append (λ t. t < suc s.next) s.timers (s.next ∷ [])
        (All-map (λ t l. omega arith) s.timers h) (omega arith, tt)

  enable_times-IsFresh :
      (n : ℕ) (s : AutomationOrchestrator N) → IsFresh s → IsFresh (enable_times n s)
  unfolding enable_times
  enable_times-IsFresh zero s h = h
  enable_times-IsFresh (suc n) s h =
      set_enabled-IsFresh (enable_times n s) (enable_times-IsFresh n s h)

  length-enable_times :
      (n : ℕ) (s : AutomationOrchestrator N)
      → length (enable_times n s).timers ≡ n + length s.timers
  unfolding enable_times set_enabled start
  length-enable_times zero s = omega arith
  length-enable_times (suc n) s = omega (
    arith,
    length-append (enable_times n s).timers ((enable_times n s).next ∷ []),
    length-enable_times n s,
  )

  -- Enabling n + 1 times in a row starts as many timers, and disabling stops the last of them only: n
  -- of them go on running.
  pub disable-enable_times :
      (n : ℕ) (s : AutomationOrchestrator N)
      → IsFresh s
      → length (set_enabled false (enable_times (suc n) s)).timers ≡ n + length s.timers
  unfolding enable_times set_enabled start stop stop_at
  disable-enable_times n s h =
      let k = enable_times n s in
      ap length (clear_interval-fresh k.next k.timers (enable_times-IsFresh n s h))
      ∙ length-enable_times n s
