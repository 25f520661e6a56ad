-- ===== src/Governance/Permits.antt =====
-- Which batches satisfy the constraints: constraint-engine.ts.
use code_kit_ultra.Base.{
  String, ℕ, ◌+◌, ◌≡◌, refl, ◌∙◌, ap, List, [], ◌∷◌, ◌++◌, Option, none, some, Bool, true, false,
  not, ◌&&◌, any, all, select, length, includes, starts_with, or_default, ltb, leb, arith,
  if◌then◌else◌,
}
use code_kit_ultra.Actions.Policy.{BuilderAction, write_file, append_file, create_dir, run_command}
use code_kit_ultra.Governance.Constraints.{
  ConstraintPolicy, ConstraintViolation, ViolationCode, path_allowed, exceeds, type_name,
  action_path, action_command, has_text, report_if, path_violation, pattern_violations,
  action_violations, batch_violations, limit_violations, evaluate_constraints,
}

-- A limit, if there is one, is kept.
abbrev pub at_most : ℕ → Option ℕ → Bool
at_most n none = true
at_most n (some max) = leb n max

-- The numbers of the actions on a path and of the commands.
abbrev pub writes : List BuilderAction → ℕ
writes [] = 0
writes (run_command line cwd reason ∷ actions) = writes actions
writes (a ∷ actions) = 1 + writes actions

abbrev pub commands : List BuilderAction → ℕ
commands [] = 0
commands (run_command line cwd reason ∷ actions) = 1 + commands actions
commands (a ∷ actions) = commands actions

-- The batch is within the policy's numbers of actions, of changed files and of commands.
abbrev pub within : ConstraintPolicy → List BuilderAction → Bool
within policy actions =
    at_most (length actions) policy.max_actions
    && (at_most (writes actions) policy.max_files_changed
        && at_most (commands actions) policy.max_commands)

abbrev pub unblocked : ConstraintPolicy → String → Bool
unblocked policy name = not (includes name (or_default policy.blocked_action_types []))

abbrev pub starts_if_any : String → List String → Bool
starts_if_any path [] = true
starts_if_any path (p ∷ ps) = any (starts_with path) (p ∷ ps)

abbrev is_empty : List ConstraintViolation → Bool
is_empty vs = not (ltb 0 (length vs))

is_empty-append :
    (xs ys : List ConstraintViolation) → is_empty (xs ++ ys) ≡ (is_empty xs && is_empty ys)
is_empty-append [] ys = refl
is_empty-append (x ∷ xs) ys = ground arith

is_empty-report : (b : Bool) (c : ViolationCode) (i : Option ℕ) → is_empty (report_if b c i) ≡ not b
unfolding report_if
is_empty-report true c i = refl
is_empty-report false c i = refl

is_empty-three :
    (xs ys zs : List ConstraintViolation) (a b c : Bool)
    → is_empty xs ≡ a
    → is_empty ys ≡ b
    → is_empty zs ≡ c
    → is_empty (xs ++ ys ++ zs) ≡ (a && (b && c))
is_empty-three xs ys zs a b c h k l =
    is_empty-append (xs ++ ys) zs ∙ ground (arith, is_empty-append xs ys, h, k, l)

-- No blocked prefix starts the path, and where prefixes are allowed, one of them does.
abbrev pub permits_path : ConstraintPolicy → String → Bool
permits_path policy path =
    all (λ p. not (starts_with path p)) (or_default policy.blocked_paths [])
    && starts_if_any path (or_default policy.allowed_paths [])

none_any {ℓ} : {A : Type ℓ} (f : A → Bool) (xs : List A) → not (any f xs) ≡ all (λ x. not (f x)) xs
none_any f [] = refl
none_any f (x ∷ xs) = ground (arith, none_any f xs)

prefixes_allow :
    (path : String) (prefixes : List String)
    → (if not (ltb 0 (length prefixes)) then true else any (starts_with path) prefixes)
      ≡ starts_if_any path prefixes
prefixes_allow path [] = refl
prefixes_allow path (p ∷ ps) = ground arith

path_allowed-permits_path :
    (policy : ConstraintPolicy) (path : String)
    → path_allowed path policy.allowed_paths policy.blocked_paths ≡ permits_path policy path
unfolding path_allowed
path_allowed-permits_path policy path = ground (
  arith,
  none_any (starts_with path) (or_default policy.blocked_paths []),
  prefixes_allow path (or_default policy.allowed_paths []),
)

module _ (test : String → String → Bool) where
  -- The policy permits an action: its type is not blocked, the path of a write is allowed, and a
  -- command matches no blocked pattern.
  abbrev pub permits : ConstraintPolicy → BuilderAction → Bool
  permits policy (write_file path content reason) =
      unblocked policy "write_file" && permits_path policy path
  permits policy (append_file path content reason) =
      unblocked policy "append_file" && permits_path policy path
  permits policy (create_dir path reason) =
      unblocked policy "create_dir" && permits_path policy path
  permits policy (run_command line cwd reason) =
      unblocked policy "run_command"
      && all (λ p. not (test p line)) (or_default policy.blocked_command_patterns [])

  is_empty-patterns :
      (patterns : List String) (i : ℕ) (line : String)
      → is_empty (pattern_violations test patterns i (some line))
        ≡ all (λ p. not (test p line)) patterns
  unfolding pattern_violations
  is_empty-patterns [] i line = refl
  is_empty-patterns (p ∷ ps) i line =
      is_empty-append (report_if (test p line) ViolationCode.blocked_command_pattern (some i)) _
      ∙ ground (
        arith,
        is_empty-report (test p line) ViolationCode.blocked_command_pattern (some i),
        is_empty-patterns ps i line,
      )

  is_empty-path :
      (policy : ConstraintPolicy) (i : ℕ) (path : String)
      → is_empty (path_violation policy i (some path)) ≡ permits_path policy path
  unfolding path_violation
  is_empty-path policy i path =
      is_empty-report _ _ _ ∙ ground (arith, path_allowed-permits_path policy path)

  is_empty-type :
      (policy : ConstraintPolicy) (i : ℕ) (name : String)
      → is_empty (
          report_if
            (includes name (or_default policy.blocked_action_types []))
            ViolationCode.blocked_action_type
            (some i))
        ≡ unblocked policy name
  is_empty-type policy i name = is_empty-report _ _ _

  is_empty-action :
      (policy : ConstraintPolicy) (i : ℕ) (a : BuilderAction)
      → is_empty (action_violations test policy i a) ≡ permits policy a
  unfolding action_violations action_path action_command type_name pattern_violations path_violation
  is_empty-action policy i (write_file path content reason) =
      is_empty-three _ _ [] _ _ _ (is_empty-type policy i _) (is_empty-path policy i path) refl
      ∙ ground arith
  is_empty-action policy i (append_file path content reason) =
      is_empty-three _ _ [] _ _ _ (is_empty-type policy i _) (is_empty-path policy i path) refl
      ∙ ground arith
  is_empty-action policy i (create_dir path reason) =
      is_empty-three _ _ [] _ _ _ (is_empty-type policy i _) (is_empty-path policy i path) refl
      ∙ ground arith
  is_empty-action policy i (run_command line cwd reason) =
      is_empty-three _ [] _ _ _ _ (is_empty-type policy i _) refl
        (is_empty-patterns (or_default policy.blocked_command_patterns []) i line)
      ∙ ground arith

  is_empty-batch :
      (policy : ConstraintPolicy) (i : ℕ) (actions : List BuilderAction)
      → is_empty (batch_violations test policy i actions) ≡ all (permits policy) actions
  unfolding batch_violations
  is_empty-batch policy i [] = refl
  is_empty-batch policy i (a ∷ actions) =
      is_empty-append (action_violations test policy (i + 1) a)
        (batch_violations test policy (i + 1) actions)
      ∙ ap (λ b. b && is_empty (batch_violations test policy (i + 1) actions))
          (is_empty-action policy (i + 1) a)
      ∙ ap (λ b. permits policy a && b) (is_empty-batch policy (i + 1) actions)

  at_most-exceeds : (n : ℕ) (max : Option ℕ) → not (exceeds n max) ≡ at_most n max
  unfolding exceeds
  at_most-exceeds n none = refl
  at_most-exceeds n (some max) = ground arith

  count-paths :
      (actions : List BuilderAction)
      → length (select (λ a. has_text (action_path a)) actions) ≡ writes actions
  unfolding has_text action_path
  count-paths [] = refl
  count-paths (write_file path content reason ∷ actions) = omega (arith, count-paths actions)
  count-paths (append_file path content reason ∷ actions) = omega (arith, count-paths actions)
  count-paths (create_dir path reason ∷ actions) = omega (arith, count-paths actions)
  count-paths (run_command line cwd reason ∷ actions) = count-paths actions

  count-commands :
      (actions : List BuilderAction)
      → length (select (λ a. has_text (action_command a)) actions) ≡ commands actions
  unfolding has_text action_command
  count-commands [] = refl
  count-commands (write_file path content reason ∷ actions) = count-commands actions
  count-commands (append_file path content reason ∷ actions) = count-commands actions
  count-commands (create_dir path reason ∷ actions) = count-commands actions
  count-commands (run_command line cwd reason ∷ actions) = omega (arith, count-commands actions)

  limit :
      (n m : ℕ) (max : Option ℕ) (c : ViolationCode)
      → n ≡ m
      → is_empty (report_if (exceeds n max) c none) ≡ at_most m max
  limit n m max c e = is_empty-report _ _ _ ∙ at_most-exceeds n max ∙ ap (λ k. at_most k max) e

  is_empty-limits :
      (policy : ConstraintPolicy) (actions : List BuilderAction)
      → is_empty (limit_violations test policy actions) ≡ within policy actions
  unfolding limit_violations
  is_empty-limits policy actions =
      is_empty-three _ _ _ _ _ _ (limit _ _ _ _ refl) (limit _ _ _ _ (count-paths actions))
        (limit _ _ _ _ (count-commands actions))

  -- A batch is valid exactly when it is within the policy's limits and the policy permits each of its
  -- actions.
  pub evaluate_constraints-permits :
      (policy : ConstraintPolicy) (actions : List BuilderAction)
      → (evaluate_constraints test actions policy).valid
        ≡ (within policy actions && all (permits policy) actions)
  unfolding evaluate_constraints
  evaluate_constraints-permits policy actions =
      is_empty-append (limit_violations test policy actions)
        (batch_violations test policy 0 actions)
      ∙ ap (λ b. b && is_empty (batch_violations test policy 0 actions))
          (is_empty-limits policy actions)
      ∙ ap (λ b. within policy actions && b) (is_empty-batch policy 0 actions)
