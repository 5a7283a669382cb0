-- ===== src/Outbox/Steps.antt =====
-- The calls that every command makes beside its own, of the outbox and of the audit log, keep to any
-- preorder that allows writes to these tables.
use vkit_orbit.Base.{ℕ, String, List}
use vkit_orbit.Host.{Host}
use vkit_orbit.Audit.{write_audit_log}
use vkit_orbit.Store.Schema.{Database, QueueOutbox, AuditLog}
use vkit_orbit.Store.Command.{audit_logs}
use vkit_orbit.Store.Rules.{
  Preorder, Steps, Steps->>=, Steps-branch, Steps-if_some, Steps-return, Steps-throw,
  Steps-find_first, Steps-create,
}
use vkit_orbit.Outbox.{Intent, enqueue_intent}

module _ (order : Preorder) (host : Host) where
  pub write_audit_log-Steps :
      ((s : Database) (rows : List AuditLog) → order.Rel s (record s { audit_logs = rows }))
      → (uuid : String) (input : AuditLog) → Steps order (write_audit_log host uuid input)
  unfolding write_audit_log
  write_audit_log-Steps quiet uuid input =
      Steps-create order host.client audit_logs _ _ (λ s _. quiet s _)

  module _
      (quiet : (s : Database) (rows : List QueueOutbox)
        → order.Rel s (record s { outbox = rows })) where
    pub enqueue_intent-Steps : (now : ℕ) (i : Intent) → Steps order (enqueue_intent host now i)
    unfolding enqueue_intent
    enqueue_intent-Steps now i = search (
      Steps->>=, Steps-find_first, Steps-if_some, Steps-branch, Steps-return, Steps-throw,
      Steps-create, quiet,
    )
