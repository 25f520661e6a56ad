-- ===== src/Core/PolicyEngine.antt =====
-- packages/core/src/policy-engine.ts. The policy file is read by the caller: the profile is an
-- argument, as it is in `evaluatePolicy`.
use code_kit_ultra.Base.{
  String, List, [], ◌∷◌, Bool, true, false, ◌||◌, Option, none, some, same, includes, any, contains,
  lookup, or_default, if◌then◌else◌,
}
use code_kit_ultra.Shared.{PlanTask}
use Prim.Native.String

pub record PolicyRules : Type 0 where
  pub require_approval_for : List String
  pub block_commands : List String

pub record PolicyResult : Type 0 where
  pub allowed : Bool
  pub requires_approval : Bool
  pub reason : String

-- `defaultPolicy.rules`
abbrev pub default_rules : PolicyRules
default_rules = record {
  require_approval_for = "github" ∷ "api" ∷ [];
  block_commands = "rm -rf /" ∷ "sudo rm -rf /" ∷ "mkfs" ∷ "dd if=/dev/zero" ∷ [];
}

-- What the policy file may hold of the rules; a missing rule keeps its default.
pub record PartialRules : Type 0 where
  pub require_approval_for : Option (List String)
  pub block_commands : Option (List String)

-- `loadPolicyProfile`, on the parsed file: `none` if it is missing or does not parse.
unfoldable pub load_policy_rules : Option PartialRules → PolicyRules
load_policy_rules none = default_rules
load_policy_rules (some p) = record {
  require_approval_for = or_default p.require_approval_for default_rules.require_approval_for;
  block_commands = or_default p.block_commands default_rules.block_commands;
}

-- `String(task.payload.command ?? "")`
abbrev pub command_of : PlanTask → String
command_of task = or_default (lookup "command" task.payload) ""

unfoldable pub is_blocked_command : PolicyRules → PlanTask → Bool
is_blocked_command rules task =
    if same task.adapter_id "terminal"
    then any (λ blocked. contains (command_of task) blocked) rules.block_commands
    else false

abbrev pub needs_approval : PolicyRules → PlanTask → Bool
needs_approval rules task =
    task.requires_approval || includes task.adapter_id rules.require_approval_for

unfoldable pub evaluate_policy : PolicyRules → PlanTask → PolicyResult
evaluate_policy rules task =
    if is_blocked_command rules task
    then record {
      allowed = false;
      requires_approval = false;
      reason =
          String.◌++◌ "Blocked by safety policy: command contains forbidden pattern '"
            (String.◌++◌ (command_of task) "'");
    }
    else record {
      allowed = true;
      requires_approval = needs_approval rules task;
      reason =
          if needs_approval rules task
          then String.◌++◌ "Approval required by policy for restricted adapter: " task.adapter_id
          else "Action permitted by current policy.";
    }
