-- ===== src/Automation/Verification/Tests.antt =====
-- Runs of the test verification, with percentages in whole numbers.
use Prim.Native.Nat.{◌/◌}
use code_kit_ultra.Base.{
  ℕ, suc, ◌+◌, ◌-◌, ◌*◌, ◌≡◌, refl, [], ◌∷◌, some, true, ltb, ◌==◌, if◌then◌else◌,
}
use code_kit_ultra.Governance.Consensus.{Arithmetic, at_least}
use code_kit_ultra.Automation.Timers.{timeout_or}
use code_kit_ultra.Automation.Verification.{
  TestVerificationService, Commands, exited, Verified, get_test_command, is_passed_status,
  is_failed_status, result_of, race_test, execute_test, run_all, suite_time, empty_execution,
  finish_suite, rules_for, run_tests, pass_percentage, approved_by, is_approved, verify_with,
  verify_tests_for_gate,
}
use code_kit_ultra.Automation.Verification.Defaults.{security_rule}
use code_kit_ultra.Automation.Verification.Approves.{Approves, verify_tests-Approves}

-- Ten thousandths, so that a quotient of two numbers keeps four digits.
abbrev parts : Arithmetic ℕ
parts = record {
  numbers = record { lt = ltb; eq = ◌==◌; whole = λ n. n * 10000; is_falsy = λ n. n == 0 };
  add = λ x y. x + y;
  sub = λ x y. x - y;
  mul = λ x y. x * y / 10000;
  div = λ x y. x * 10000 / y;
  max = λ x y. if ltb x y then y else x;
  min = λ x y. if ltb x y then x else y;
  literal = λ n k. if k == 1 then n * 1000 else n * 100;
  to_fixed = λ x. x;
}

-- Each command succeeds after a second; the world counts them.
abbrev healthy : Commands ℕ
healthy line w = (exited "ok" "", 1000, suc w)

abbrev service : TestVerificationService ℕ
service = record { rules = ("test-verify-security", security_rule parts) ∷ []; executions = [] }

abbrev verified : Verified parts healthy
verified = verify_with parts healthy "exec" "run" "security" (security_rule parts ∷ []) service 0

verified_approves : verified.approved ≡ true
unfolding verify_with run_tests security_rule run_all execute_test get_test_command race_test
    result_of timeout_or finish_suite suite_time empty_execution is_passed_status is_failed_status
    is_approved approved_by pass_percentage at_least
verified_approves = refl

is_verified :
    verify_tests_for_gate parts healthy true "exec" "run" "security" service 0 ≡ some verified
unfolding verify_tests_for_gate rules_for security_rule
is_verified = refl

verify_tests-Approves_example :
    Approves parts healthy 0 verified.world verified.execution (rules_for "security" service)
verify_tests-Approves_example =
    verify_tests-Approves parts healthy "exec" "run" "security" service 0 verified is_verified
      verified_approves
