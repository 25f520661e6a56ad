-- ===== src/Automation/Verification.antt =====
-- apps/control-service/src/services/test-verification-service.ts: the tests that a gate asks for. The run
-- of a command is a parameter, with its duration in milliseconds, as are the coverage report, which
-- decides nothing and is left out, and JavaScript's arithmetic. The tests go on after the timeout of
-- their suite, and the commands change the world in the order of the tests.
mod Approves
mod Optional
mod Defaults
mod Tests
use Prim.Native.String
use code_kit_ultra.Base.{
  String, ℕ, ◌+◌, ◌*◌, List, [], ◌∷◌, map, Option, none, some, Bool, true, false, not, ◌&&◌, find,
  select, length, lookup, insert, contains, same, leb, ltb, if◌then◌else◌,
}
use code_kit_ultra.Governance.Consensus.{Arithmetic, at_least}
use code_kit_ultra.Automation.Timers.{timeout_or}

pub data TestStatus : Type 0 where
  passed failed skipped pending : TestStatus

pub record TestResult : Type 0 where
  pub test_id : String
  pub status : TestStatus
  pub duration : ℕ
  pub error : Option String

pub data FailureAction : Type 0 where
  block warn log : FailureAction

pub record RequiredTest : Type 0 where
  pub test_name : String
  pub test_path : String
  pub required : Bool
  pub max_duration : Option ℕ

pub record TestVerificationRule (N : Type 0) : Type 0 where
  pub id : String
  pub gate_id : String
  pub enabled : Bool
  pub required_tests : List RequiredTest
  pub min_pass_percentage : N
  pub failure_action : FailureAction
  pub parallel_execution : Bool
  pub timeout : ℕ

pub data SuiteStatus : Type 0 where
  pending running completed failed timed_out : SuiteStatus

pub record TestSuiteExecution : Type 0 where
  pub id : String
  pub run_id : String
  pub gate_id : String
  pub status : SuiteStatus
  pub total_tests : ℕ
  pub passed_tests : ℕ
  pub failed_tests : ℕ
  pub results : List TestResult

pub record TestVerificationService (N : Type 0) : Type 0 where
  pub rules : List (String × TestVerificationRule N)
  pub executions : List (String × TestSuiteExecution)

-- How a command ends: with its two outputs, or with an error.
pub data CommandEnd : Type 0 where
  exited : (stdout stderr : String) → CommandEnd
  raised : String → CommandEnd

-- The commands: how one ends, after how long, and the world after it.
abbrev pub Commands : Type 0 → Type 0
Commands W = String → W → CommandEnd × ℕ × W

unfoldable pub get_test_command : String → String
get_test_command path =
    if contains path "unit"
    then "pnpm run test:unit"
    else if contains path "integration"
    then "pnpm run test:integration"
    else if contains path "security"
    then "pnpm run test:security"
    else if contains path "lint"
    then "pnpm lint"
    else "pnpm run test:all"

unfoldable pub is_passed_status : TestStatus → Bool
is_passed_status TestStatus.passed = true
is_passed_status _ = false

unfoldable pub is_failed_status : TestStatus → Bool
is_failed_status TestStatus.failed = true
is_failed_status _ = false

-- Lines 242 to 264.
unfoldable pub result_of : RequiredTest → ℕ → CommandEnd → TestResult
result_of test took (exited stdout stderr) = record {
  test_id = test.test_name;
  status =
      if not (contains stdout "FAIL") && not (contains stderr "error")
      then TestStatus.passed
      else TestStatus.failed;
  duration = took;
  error = none;
}
result_of test took (raised message) = record {
  test_id = test.test_name;
  status = TestStatus.failed;
  duration = took;
  error = some message;
}

-- The command against the time that the test has.
unfoldable pub race_test : RequiredTest → CommandEnd → ℕ → TestResult
race_test test end took =
    let limit = timeout_or test.max_duration 60 * 1000 in
    if leb took limit
    then result_of test took end
    else result_of test limit (raised "Test execution timeout")

module _ {W : Type 0} (commands : Commands W) where
  unfoldable pub execute_test : RequiredTest → W → TestResult × W
  execute_test test w =
      let (end, took, w') = commands (get_test_command test.test_path) w in
      (race_test test end took, w')

  -- The tests, started one after the other, with their results in order.
  unfoldable pub run_all : List RequiredTest → W → List TestResult × W
  run_all [] w = ([], w)
  run_all (t ∷ ts) w =
      let (r, w') = execute_test t w in let (rs, w'') = run_all ts w' in (r ∷ rs, w'')

-- When the last of the tests ends: they run together, or one after the other.
unfoldable pub suite_time : Bool → List TestResult → ℕ
suite_time parallel [] = 0
suite_time parallel (r ∷ rs) =
    let rest = suite_time parallel rs in
    if not parallel then r.duration + rest else if ltb rest r.duration then r.duration else rest

unfoldable pub empty_execution : String → String → String → TestSuiteExecution
empty_execution id run_id gate_id = record {
  id = id;
  run_id = run_id;
  gate_id = gate_id;
  status = SuiteStatus.completed;
  total_tests = 0;
  passed_tests = 0;
  failed_tests = 0;
  results = [];
}

-- Lines 167 to 194: the results in time, or the timeout of the suite.
unfoldable pub finish_suite : Bool → ℕ → List TestResult → TestSuiteExecution → TestSuiteExecution
finish_suite parallel timeout rs e =
    if leb (suite_time parallel rs) (timeout * 1000)
    then record e {
      status = SuiteStatus.completed;
      results = rs;
      passed_tests = length (select (λ (r : TestResult). is_passed_status r.status) rs);
      failed_tests = length (select (λ (r : TestResult). is_failed_status r.status) rs);
    }
    else record e { status = SuiteStatus.timed_out }

unfoldable pub is_lenient : FailureAction → Bool
is_lenient block = false
is_lenient warn = true
is_lenient log = true

unfoldable pub results_of : Option TestSuiteExecution → List TestResult
results_of none = []
results_of (some e) = e.results

module _ {N : Type 0} where
  unfoldable pub register_test_rule :
      TestVerificationRule N → TestVerificationService N → TestVerificationService N
  register_test_rule r s = if not r.enabled then s else record s { rules = insert r.id r s.rules }

  unfoldable pub rules_for : String → TestVerificationService N → List (TestVerificationRule N)
  rules_for gate_id s =
      select (λ (r : TestVerificationRule N). same r.gate_id gate_id && r.enabled)
        (map (λ (e : String × TestVerificationRule N). e.1) s.rules)

  unfoldable pub get_executions_for_run :
      String → TestVerificationService N → List TestSuiteExecution
  get_executions_for_run run_id s =
      select (λ (e : TestSuiteExecution). same e.run_id run_id)
        (map (λ (e : String × TestSuiteExecution). e.1) s.executions)

  unfoldable pub get_test_results_for_gate :
      String → String → TestVerificationService N → List TestResult
  get_test_results_for_gate run_id gate_id s =
      results_of (
        find (λ (e : TestSuiteExecution). same e.gate_id gate_id) (get_executions_for_run run_id s))

  unfoldable pub run_tests :
      {W : Type 0}
      → Commands W
      → String
      → String
      → String
      → TestVerificationRule N
      → W
      → TestSuiteExecution × W
  run_tests commands id run_id gate_id r w =
      let (rs, w') = run_all commands r.required_tests w in
      let e : TestSuiteExecution = record (empty_execution id run_id gate_id) {
        status = SuiteStatus.running;
        total_tests = length r.required_tests;
      } in
      (finish_suite r.parallel_execution r.timeout rs e, w')

  module _ (a : Arithmetic N) where
    -- `(passed / total) * 100`
    unfoldable pub pass_percentage : TestSuiteExecution → N
    pass_percentage e =
        a.mul (a.div (a.numbers.whole e.passed_tests) (a.numbers.whole e.total_tests))
          (a.numbers.whole 100)

    unfoldable pub approved_by : SuiteStatus → TestSuiteExecution → TestVerificationRule N → Bool
    approved_by SuiteStatus.failed e r = is_lenient r.failure_action
    approved_by SuiteStatus.timed_out e r = is_lenient r.failure_action
    approved_by _ e r = at_least a (pass_percentage e) r.min_pass_percentage

    unfoldable pub is_approved : TestSuiteExecution → TestVerificationRule N → Bool
    is_approved e r = approved_by e.status e r

    module _ {W : Type 0} (commands : Commands W) where
      -- What the verification of a gate leaves.
      pub record Verified : Type 0 where
        pub approved : Bool
        pub execution : TestSuiteExecution
        pub service : TestVerificationService N
        pub world : W

      -- The first of the rules, where there is one.
      unfoldable pub verify_with :
          String
          → String
          → String
          → List (TestVerificationRule N)
          → TestVerificationService N
          → W
          → Verified
      verify_with id run_id gate_id [] s w = record {
        approved = true;
        execution = empty_execution id run_id gate_id;
        service = s;
        world = w;
      }
      verify_with id run_id gate_id (r ∷ rs) s w =
          let (e, w') = run_tests commands id run_id gate_id r w in
          record {
            approved = is_approved e r;
            execution = e;
            service = record s { executions = insert e.id e s.executions };
            world = w';
          }

      -- `none` where the run is not there, which throws. `id` is the execution's, which holds the clock.
      unfoldable pub verify_tests_for_gate :
          Bool → String → String → String → TestVerificationService N → W → Option Verified
      verify_tests_for_gate false id run_id gate_id s w = none
      verify_tests_for_gate true id run_id gate_id s w =
          some (verify_with id run_id gate_id (rules_for gate_id s) s w)
