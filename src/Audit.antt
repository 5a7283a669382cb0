-- ===== src/Audit.antt =====
-- packages/application/src/audit/write-audit-log.ts
use vkit_orbit.Base.{String, none, some, ◌==◌}
use vkit_orbit.Host.{Host}
use vkit_orbit.Store.Schema.{AuditLog}
use vkit_orbit.Store.Command.{Command, audit_logs, create}

-- `scope`, of every command on documents.
pub record Scope : Type 0 where
  pub workspace_id : String
  pub principal_id : String

unfoldable pub write_audit_log : Host → String → AuditLog → Command AuditLog
write_audit_log host uuid input =
    create host.client audit_logs (λ r. r.id == uuid) (record input { id = uuid })

-- The entry of a user's command on one resource; `write_audit_log` gives it its id.
abbrev pub entry : Scope → String → String → String → AuditLog
entry scope action resource_type resource_id = record {
  id = "";
  workspace_id = scope.workspace_id;
  principal_id = scope.principal_id;
  action = action;
  resource_type = resource_type;
  resource_id = some resource_id;
  metadata = none;
}
