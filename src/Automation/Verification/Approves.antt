-- ===== src/Automation/Verification/Approves.antt =====
-- test-verification-service.ts, lines 102 to 216 and 316 to 323: what approves a gate.
use mathlib.Core.Option.{some_inj}
use mathlib.Core.Path.{subst}
use code_kit_ultra.Base.{
  String, ℕ, zero, suc, ◌+◌, ◌*◌, ◌≡◌, ◌≢◌, refl, sym, ◌∙◌, ap, List, [], ◌∷◌, length, select,
  Option, none, some, Bool, true, false, not, ◌&&◌, contains, leb, arith, if-split, inl, inr, ◌⊎◌,
  if◌then◌else◌,
}
use code_kit_ultra.Governance.Consensus.{Arithmetic, at_least}
use code_kit_ultra.Automation.Timers.{timeout_or}
use code_kit_ultra.Automation.Verification.{
  TestStatus, TestResult, RequiredTest, FailureAction, TestVerificationRule, TestSuiteExecution,
  SuiteStatus, TestVerificationService, Commands, get_test_command, CommandEnd, exited, raised,
  result_of, race_test, execute_test, run_all, suite_time, finish_suite, is_lenient,
  is_passed_status, rules_for, run_tests, pass_percentage, approved_by, is_approved, Verified,
  verify_with, verify_tests_for_gate,
}

-- The time that a test has, in milliseconds: a minute if none is given, or nought.
abbrev pub limit_of : Option ℕ → ℕ
limit_of none = 60000
limit_of (some zero) = 60000
limit_of (some (suc n)) = suc n * 1000

-- The command ended in time, without an error, and its output speaks of no failure.
abbrev pub went_well : RequiredTest → CommandEnd → ℕ → Bool
went_well t (exited stdout stderr) took =
    leb took (limit_of t.max_duration)
    && (not (contains stdout "FAIL") && not (contains stderr "error"))
went_well t (raised message) took = false

-- The result tells how the command went.
pub record Tells (t : RequiredTest) (end : CommandEnd) (took : ℕ) (r : TestResult) : Type 0 where
  pub test_id : r.test_id ≡ t.test_name
  pub status : r.status ≡ (if went_well t end took then TestStatus.passed else TestStatus.failed)

limit_of-timeout : (o : Option ℕ) → timeout_or o 60 * 1000 ≡ limit_of o
unfolding timeout_or
limit_of-timeout none = refl
limit_of-timeout (some zero) = refl
limit_of-timeout (some (suc n)) = refl

result_of-Tells :
    (t : RequiredTest) (end : CommandEnd) (took : ℕ)
    → leb took (limit_of t.max_duration) ≡ true
    → Tells t end took (result_of t took end)
unfolding result_of
result_of-Tells t (exited out err) took h = record { test_id = refl; status = rw h refl }
result_of-Tells t (raised m) took h = record { test_id = refl; status = refl }

late_status :
    (t : RequiredTest) (end : CommandEnd) (took : ℕ)
    → leb took (limit_of t.max_duration) ≡ false
    → went_well t end took ≡ false
late_status t (exited out err) took h = rw h refl
late_status t (raised m) took h = refl

race_test-Tells :
    (t : RequiredTest) (end : CommandEnd) (took : ℕ) → Tells t end took (race_test t end took)
unfolding race_test result_of
race_test-Tells t end took = rw (limit_of-timeout t.max_duration) (
    if-split (Tells t end took) (leb took (limit_of t.max_duration)) _ _
      (λ e. result_of-Tells t end took e)
      (λ e. record { test_id = refl; status = rw (late_status t end took e) refl }))

-- The results that passed.
abbrev count : List TestResult → ℕ
count rs = length (select (λ (r : TestResult). is_passed_status r.status) rs)

count-one :
    (b : Bool) (r : TestResult) (rs : List TestResult)
    → r.status ≡ (if b then TestStatus.passed else TestStatus.failed)
    → count (r ∷ rs) ≡ (if b then 1 else 0) + count rs
unfolding is_passed_status
count-one true r rs e = rw e (omega arith)
count-one false r rs e = rw e (omega arith)

module _ {W : Type 0} (commands : Commands W) where
  -- The commands of the tests are run once each, in their order, from one world to another, and the
  -- results tell how they went, of which so many went well.
  pub data Ran : List RequiredTest → W → List TestResult → ℕ → W → Type 0 where
    none_left : {w : W} → Ran [] w [] 0 w
    one_ran :
        {ts : List RequiredTest} {rs : List TestResult} {n : ℕ} {u v w : W} (t : RequiredTest)
        (r : TestResult) (end : CommandEnd) (took : ℕ)
        → commands (get_test_command t.test_path) w ≡ (end, took, u)
        → Tells t end took r
        → Ran ts u rs n v
        → Ran (t ∷ ts) w (r ∷ rs) ((if went_well t end took then 1 else 0) + n) v

  run_all-Ran :
      (ts : List RequiredTest) (w : W)
      → let (rs, v) = run_all commands ts w in Ran ts w rs (count rs) v
  unfolding run_all execute_test
  run_all-Ran [] w = none_left
  run_all-Ran (t ∷ ts) w =
      let (end, took, u) = commands (get_test_command t.test_path) w in
      let told = race_test-Tells t end took in
      let (rs, v) = run_all commands ts u in
      subst (λ n. Ran (t ∷ ts) w (race_test t end took ∷ rs) n v)
        (sym (count-one (went_well t end took) (race_test t end took) rs told.status))
        (one_ran t _ end took refl told (run_all-Ran ts u))

module _ {N W : Type 0} (a : Arithmetic N) (commands : Commands W) where
  -- The commands of the rule's tests were run, from one world to another, and enough of them went well.
  pub record HasPassed (r : TestVerificationRule N) (w : W) (e : TestSuiteExecution) (v : W)
      : Type 0 where
    pub status : e.status ≡ SuiteStatus.completed
    pub ran : Ran commands r.required_tests w e.results e.passed_tests v
    pub total : e.total_tests ≡ length r.required_tests
    pub enough :
        at_least a
          (a.mul
            (a.div (a.numbers.whole e.passed_tests) (a.numbers.whole e.total_tests))
            (a.numbers.whole 100))
          r.min_pass_percentage
        ≡ true

  -- The suite was not in time, and its rule lets that pass.
  abbrev IsExcused : TestVerificationRule N → TestSuiteExecution → Type 0
  IsExcused r e = (e.status ≡ SuiteStatus.timed_out) × (r.failure_action ≢ FailureAction.block)

  pub data Approves (w : W) (v : W) (e : TestSuiteExecution)
      : List (TestVerificationRule N) → Type 0 where
    no_rule : Approves w v e []
    tested :
        (r : TestVerificationRule N) (rest : List (TestVerificationRule N))
        → HasPassed r w e v
        → Approves w v e (r ∷ rest)
    excused :
        (r : TestVerificationRule N) (rest : List (TestVerificationRule N))
        → e.status ≡ SuiteStatus.timed_out
        → r.failure_action ≢ FailureAction.block
        → Approves w v e (r ∷ rest)

  lenient-ne : (f : FailureAction) → is_lenient f ≡ true → f ≢ FailureAction.block
  unfolding is_lenient
  lenient-ne FailureAction.block h = cc
  lenient-ne FailureAction.warn h = λ e. cc
  lenient-ne FailureAction.log h = λ e. cc

  -- How an approved suite ended.
  abbrev Ends : TestVerificationRule N → W → TestSuiteExecution → W → Type 0
  Ends r w e v = is_approved a e r ≡ true → HasPassed r w e v ⊎ IsExcused r e

  finish_suite-Ends :
      (r : TestVerificationRule N) (w v : W) (rs : List TestResult) (e : TestSuiteExecution)
      → Ran commands r.required_tests w rs (count rs) v
      → e.total_tests ≡ length r.required_tests
      → Ends r w (finish_suite r.parallel_execution r.timeout rs e) v
  unfolding finish_suite is_approved approved_by pass_percentage
  finish_suite-Ends r w v rs e i t =
      if-split (λ x. Ends r w x v) (leb (suite_time r.parallel_execution rs) (r.timeout * 1000)) _ _
        (λ _ h. inl (record { status = refl; ran = i; total = t; enough = h }))
        (λ _ h. inr (refl, lenient-ne r.failure_action h))

  run_tests-Ends :
      (id run_id gate_id : String) (r : TestVerificationRule N) (w : W)
      → let (e, v) = run_tests commands id run_id gate_id r w in Ends r w e v
  unfolding run_tests
  run_tests-Ends id run_id gate_id r w =
      let (rs, v) = run_all commands r.required_tests w in
      finish_suite-Ends r w v rs _ (run_all-Ran commands r.required_tests w) refl

  ended-Approves :
      (r : TestVerificationRule N) (rs : List (TestVerificationRule N)) (w v : W)
      (e : TestSuiteExecution)
      → HasPassed r w e v ⊎ IsExcused r e
      → Approves w v e (r ∷ rs)
  ended-Approves r rs w v e (inl h) = tested r rs h
  ended-Approves r rs w v e (inr h) = excused r rs h.0 h.1

  verify_with-Approves :
      (id run_id gate_id : String) (rs : List (TestVerificationRule N))
      (s : TestVerificationService N) (w : W)
      → let v = verify_with a commands id run_id gate_id rs s w in
        v.approved ≡ true → Approves w v.world v.execution rs
  unfolding verify_with
  verify_with-Approves id run_id gate_id [] s w h = no_rule
  verify_with-Approves id run_id gate_id (r ∷ rs) s w h =
      ended-Approves r rs w _ _ (run_tests-Ends id run_id gate_id r w h)

  -- A gate is approved only where no enabled rule names it, or where the commands of the tests of the
  -- first that does were run once each, in order, each result telling whether its command ended in time,
  -- without an error and without speaking of a failure, and enough of them did, or where the suite of
  -- that rule ran out of time and its failures do not block.
  pub verify_tests-Approves :
      (id run_id gate_id : String) (s : TestVerificationService N) (w : W) (v : Verified a commands)
      → verify_tests_for_gate a commands true id run_id gate_id s w ≡ some v
      → v.approved ≡ true
      → Approves w v.world v.execution (rules_for gate_id s)
  unfolding verify_tests_for_gate
  verify_tests-Approves id run_id gate_id s w v e h =
      let f = some_inj.0 e in
      subst (λ (u : Verified a commands). Approves w u.world u.execution (rules_for gate_id s)) f
        (verify_with-Approves id run_id gate_id (rules_for gate_id s) s w
          (ap (λ (u : Verified a commands). u.approved) f ∙ h))
