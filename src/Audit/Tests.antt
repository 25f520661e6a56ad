-- ===== src/Audit/Tests.antt =====
-- The audit logs at concrete inputs, with a hash that is the event's id, and one that collides.
use code_kit_ultra.Base.{String, [], none}
use code_kit_ultra.Audit.Log.{Content, Body, AuditState, genesis, write_audit_event}
use code_kit_ultra.Audit.Chain.{IsChain, write_audit_event-IsChain}

abbrev content : String → Content
content id = record {
  id = id;
  timestamp = "2026-01-01T00:00:00Z";
  run_id = "run-1";
  actor = "ann";
  role = "operator";
  action = "TASK_EXECUTION_ATTEMPT";
  step_id = none;
  details = "{}";
}

abbrev empty : AuditState
empty = record { logs = λ r. []; global = []; last_hash = genesis }

abbrev by_id : Body → String
by_id b = b.content.id

abbrev colliding : Body → String
colliding b = genesis

write_audit_event-IsChain_example :
    IsChain by_id genesis
      ((write_audit_event by_id (content "e1") (content "e2") empty).logs "run-1")
write_audit_event-IsChain_example =
    write_audit_event-IsChain by_id (content "e1") (content "e2") empty (λ r. tt) "run-1"
