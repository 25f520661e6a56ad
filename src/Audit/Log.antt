-- ===== src/Audit/Log.antt =====
-- The writing of audit events: appendAuditEvent of packages/core/src/audit-logger.ts and
-- writeAuditEvent of packages/audit/src/write-audit-event.ts.
use code_kit_ultra.Base.{
  String, List, [], ◌∷◌, ◌++◌, Option, last?, same, or_default, map_some, if◌then◌else◌,
}

-- What an event says, but for its place in the chain.
pub record Content : Type 0 where
  pub id : String
  pub timestamp : String
  pub run_id : String
  pub actor : String
  pub role : String
  pub action : String
  pub step_id : Option String
  pub details : String

-- `Omit<AuditEvent, "hash">`
pub record Body : Type 0 where
  pub content : Content
  pub prev_hash : String

pub record AuditEvent : Type 0 where
  pub body : Body
  pub hash : String

-- The log of each run, the global file, and the variable `lastHash`.
pub record AuditState : Type 0 where
  pub logs : String → List AuditEvent
  pub global : List AuditEvent
  pub last_hash : String

abbrev pub genesis : String
genesis = "GENESIS_BLOCK"

-- `events.at(-1)?.hash ?? fallback`
unfoldable pub tip : String → List AuditEvent → String
tip fallback events = or_default (map_some (λ (e : AuditEvent). e.hash) (last? events)) fallback

module _ (hash_body : Body → String) where
  unfoldable pub seal : Content → String → AuditEvent
  seal content prev =
      let body : Body = record { content = content; prev_hash = prev } in
      record { body = body; hash = hash_body body }

  unfoldable pub save_audit_log : String → List AuditEvent → AuditState → AuditState
  save_audit_log run_id events s = record s {
    logs = λ r. if same r run_id then events else s.logs r;
  }

  -- The event goes to the log of its run, and to the global file.
  unfoldable pub append_audit_event : Content → AuditState → AuditState
  append_audit_event content s =
      let log = s.logs content.run_id in
      let event = seal content (tip genesis log) in
      let s' = save_audit_log content.run_id (log ++ event ∷ []) s in
      record s' { global = s'.global ++ event ∷ [] }

  -- Lines 44 to 90: the event of the global file.
  unfoldable pub append_global : Content → AuditState → AuditState
  append_global content s =
      let event = seal content (tip s.last_hash s.global) in
      record s { global = s.global ++ event ∷ []; last_hash = event.hash }

  -- `inner` is the content that appendAuditEvent gives the event of the run's log: another id and
  -- time, and more details.
  unfoldable pub write_audit_event : Content → Content → AuditState → AuditState
  write_audit_event content inner s =
      let s' = append_global content s in
      if same content.run_id "none"
      then s'
      else append_audit_event (record inner { run_id = content.run_id }) s'
