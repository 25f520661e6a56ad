-- ===== src/Automation/Verification/Optional.antt =====
-- test-verification-service.ts: the tests that are marked as required.
use code_kit_ultra.Base.{String, ℕ, ◌≡◌, refl, ◌∙◌, ap, List, [], ◌∷◌, map, length-map, false}
use code_kit_ultra.Governance.Consensus.{Arithmetic}
use code_kit_ultra.Automation.Verification.{
  RequiredTest, TestVerificationRule, TestSuiteExecution, TestVerificationService, Commands,
  CommandEnd, exited, raised, SuiteStatus, race_test, execute_test, get_test_command, run_all,
  run_tests, result_of, is_approved, approved_by, verify_with,
}

-- The test, and the tests of a rule, with no test required.
abbrev pub make_optional : RequiredTest → RequiredTest
make_optional t = record t { required = false }

abbrev pub without_required : {N : Type 0} → TestVerificationRule N → TestVerificationRule N
without_required r = record r { required_tests = map make_optional r.required_tests }

race_test-optional :
    (t : RequiredTest) (end : CommandEnd) (took : ℕ)
    → race_test (make_optional t) end took ≡ race_test t end took
unfolding race_test result_of
race_test-optional t (exited out err) took = refl
race_test-optional t (raised m) took = refl

run_all-optional :
    {W : Type 0} (commands : Commands W) (ts : List RequiredTest) (w : W)
    → run_all commands (map make_optional ts) w ≡ run_all commands ts w
unfolding run_all execute_test
run_all-optional commands [] w = refl
run_all-optional commands (t ∷ ts) w =
    let c = commands (get_test_command t.test_path) w in
    rw (race_test-optional t c.0 c.1, run_all-optional commands ts c.2) refl

module _ {N W : Type 0} (a : Arithmetic N) (commands : Commands W) where
  run_tests-optional :
      (id run_id gate_id : String) (r : TestVerificationRule N) (w : W)
      → run_tests commands id run_id gate_id (without_required r) w
        ≡ run_tests commands id run_id gate_id r w
  unfolding run_tests
  run_tests-optional id run_id gate_id r w =
      rw (run_all-optional commands r.required_tests w, length-map make_optional r.required_tests)
        refl

  approved_by-optional :
      (status : SuiteStatus) (e : TestSuiteExecution) (r : TestVerificationRule N)
      → approved_by a status e (without_required r) ≡ approved_by a status e r
  unfolding approved_by
  approved_by-optional SuiteStatus.pending e r = refl
  approved_by-optional SuiteStatus.running e r = refl
  approved_by-optional SuiteStatus.completed e r = refl
  approved_by-optional SuiteStatus.failed e r = refl
  approved_by-optional SuiteStatus.timed_out e r = refl

  -- Which tests a rule marks as required makes no difference to whether it approves a gate.
  pub verify_with-optional :
      (id run_id gate_id : String) (r : TestVerificationRule N) (s : TestVerificationService N)
      (w : W)
      → (verify_with a commands id run_id gate_id (without_required r ∷ []) s w).approved
        ≡ (verify_with a commands id run_id gate_id (r ∷ []) s w).approved
  unfolding verify_with is_approved
  verify_with-optional id run_id gate_id r s w =
      ap (λ (p : TestSuiteExecution × W). is_approved a p.0 (without_required r))
        (run_tests-optional id run_id gate_id r w)
      ∙ approved_by-optional (run_tests commands id run_id gate_id r w).0.status
          (run_tests commands id run_id gate_id r w).0 r
