-- ===== src/Automation/Verification/Defaults.antt =====
-- test-verification-service.ts, lines 390 to 422: the rules that the service starts with.
use code_kit_ultra.Base.{List, [], ◌∷◌, none, true, false}
use code_kit_ultra.Governance.Consensus.{Arithmetic}
use code_kit_ultra.Automation.Verification.{TestVerificationRule, block}

module _ {N : Type 0} (a : Arithmetic N) where
  unfoldable pub qa_rule : TestVerificationRule N
  qa_rule = record {
    id = "test-verify-qa";
    gate_id = "qa";
    enabled = true;
    required_tests =
        record {
          test_name = "Unit Tests";
          test_path = "test/unit/**/*.test.ts";
          required = true;
          max_duration = none;
        }
        ∷ record {
          test_name = "Integration Tests";
          test_path = "test/integration/**/*.test.ts";
          required = true;
          max_duration = none;
        }
        ∷ record {
          test_name = "API Tests";
          test_path = "test/api/**/*.test.ts";
          required = false;
          max_duration = none;
        }
        ∷ [];
    min_pass_percentage = a.numbers.whole 95;
    failure_action = block;
    parallel_execution = true;
    timeout = 300;
  }

  unfoldable pub security_rule : TestVerificationRule N
  security_rule = record {
    id = "test-verify-security";
    gate_id = "security";
    enabled = true;
    required_tests =
        record {
          test_name = "Security Scan";
          test_path = "test/security/**/*.test.ts";
          required = true;
          max_duration = none;
        }
        ∷ record {
          test_name = "Lint Check";
          test_path = "test/lint/**/*.test.ts";
          required = true;
          max_duration = none;
        }
        ∷ [];
    min_pass_percentage = a.numbers.whole 100;
    failure_action = block;
    parallel_execution = false;
    timeout = 180;
  }

  unfoldable pub default_test_rules : List (TestVerificationRule N)
  default_test_rules = qa_rule ∷ security_rule ∷ []
