-- ===== src/Automation/Samples.antt =====
-- Numbers for the runs of the automation.
use code_kit_ultra.Base.{ℕ, String, ltb, ◌==◌}
use code_kit_ultra.Governance.Numbers.{Numbers}

abbrev pub naturals : Numbers ℕ
naturals = record { lt = ltb; eq = ◌==◌; whole = λ n. n; is_falsy = λ n. n == 0 }

abbrev pub no_decimals : ℕ → String
no_decimals n = "n"
