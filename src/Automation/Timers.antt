-- ===== src/Automation/Timers.antt =====
-- What the services of the automation share: the tests of a metric, and the race of an action with
-- its timeout (rollback-automation.ts, lines 333 to 342, healing-engine.ts, lines 255 to 264). A
-- timer is taken to fire when it is due, and of two that are due together the one that was set first.
use code_kit_ultra.Base.{
  ℕ, zero, String, List, Option, none, some, Bool, lookup, same, leb, if◌then◌else◌,
}
use code_kit_ultra.Governance.Numbers.{Numbers}

pub data Operator : Type 0 where
  greater_than less_than equals : Operator

-- `metrics[name] || 0`
unfoldable pub metric_value : {N : Type 0} → Numbers N → List (String × N) → String → N
metric_value num metrics name = elim (lookup name metrics) [
  | none ↦ num.whole 0
  | some v ↦ if num.is_falsy v then num.whole 0 else v
]

-- `text || preset`
unfoldable pub text_or : Option String → String → String
text_or none preset = preset
text_or (some t) preset = if same t "" then preset else t

-- `timeout || preset`, in milliseconds
unfoldable pub timeout_or : Option ℕ → ℕ → ℕ
timeout_or none preset = preset
timeout_or (some zero) preset = preset
timeout_or (some t) preset = t

-- The action, which waits for `delay` milliseconds, ends before its timeout.
unfoldable pub is_in_time : ℕ → Option ℕ → ℕ → Bool
unfolding timeout_or
is_in_time delay timeout preset = leb delay (timeout_or timeout preset)
