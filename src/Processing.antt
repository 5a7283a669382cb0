-- ===== src/Processing.antt =====
-- packages/application/src/processing: the stages of a run. A stage is claimed under a lease, and is
-- completed or failed by updates that name the status and the stage revision they expect.
pub mod Leases
pub mod Handoff
use vkit_orbit.Base.{
  ℕ, ◌+◌, String, Bool, true, false, ◌&&◌, ◌||◌, not, Option, none, some, List, [], ◌∷◌, any, ltb,
  eqb, ◌==◌, if◌then◌else◌, is_some,
}
use vkit_orbit.Host.{Host}
use vkit_orbit.Audit.{write_audit_log}
use vkit_orbit.Json.{Json, num, str, arr, obj, items, end, field}
use vkit_orbit.Store.Schema.{
  ProcessingStatus, queued, completed, failed, canceled, result, DocumentArtifact, ProcessingRun,
  WebhookEndpoint,
}
use vkit_orbit.Store.Client.{Client, Result, message, unordered}
use vkit_orbit.Store.Command.{
  Command, ◌>>=◌, ◌>>◌, return, branch, if_some, for_each, artifacts, audit_logs, endpoints, runs,
  find_first, find_all, update_many, create, upsert, transaction,
}
use vkit_orbit.Outbox.{Intent, enqueue_intent, earlier}
use vkit_orbit.Documents.{stage_intent, artifact_clash, lift}
use vkit_orbit.Webhooks.{prepare_webhook_envelope, prepare_delivery}

pub data Stage : Type 0 where
  validating analyzing finalizing : Stage

abbrev pub stage_status : Stage → ProcessingStatus
stage_status Stage.validating = ProcessingStatus.validating
stage_status Stage.analyzing = ProcessingStatus.analyzing
stage_status Stage.finalizing = ProcessingStatus.finalizing

abbrev pub is_status : ProcessingStatus → ProcessingStatus → Bool
is_status queued queued = true
is_status ProcessingStatus.validating ProcessingStatus.validating = true
is_status ProcessingStatus.analyzing ProcessingStatus.analyzing = true
is_status ProcessingStatus.finalizing ProcessingStatus.finalizing = true
is_status completed completed = true
is_status failed failed = true
is_status canceled canceled = true
is_status _ _ = false

-- What a job's payload names: a run of a workspace, at a stage revision.
pub record Target : Type 0 where
  pub workspace_id : String
  pub run_id : String
  pub revision : ℕ

abbrev pub is_target : Target → ProcessingRun → Bool
is_target t r =
    r.workspace_id == t.workspace_id && r.id == t.run_id && eqb r.stage_revision t.revision

-- `OR: [{ leaseExpiresAt: null }, { leaseExpiresAt: { lt: now } }]`
abbrev pub is_unleased : ℕ → Option ℕ → Bool
is_unleased now lease = not (is_some lease) || earlier lease now

-- The statuses from which a stage is claimed.
abbrev pub claims_from : Stage → ProcessingStatus → Bool
claims_from Stage.validating s = is_status s queued || is_status s ProcessingStatus.validating
claims_from stage s = is_status s (stage_status stage)

abbrev pub is_claimable : ℕ → Target → Stage → ProcessingRun → Bool
is_claimable now t stage r =
    is_target t r && claims_from stage r.status && is_unleased now r.lease_expires_at

abbrev pub leased : ℕ → Stage → ProcessingRun → ProcessingRun
leased until stage r = record r { status = stage_status stage; lease_expires_at = some until }

-- `claimStage`; `lease` is `leaseMs ?? 60_000`.
unfoldable pub claim_stage : Client → ℕ → Target → Stage → ℕ → Command Bool
claim_stage client now t stage lease = do
  count ← update_many client runs (is_claimable now t stage) (leased (now + lease) stage)
  return (eqb count 1)

abbrev pub is_at : Target → ProcessingStatus → ProcessingRun → Bool
is_at t status r = is_target t r && is_status r.status status

abbrev pub advanced : ProcessingStatus → ProcessingRun → ProcessingRun
advanced status r = record r { status = status; lease_expires_at = none }

-- The intent of the next stage's job.
abbrev pub queue_next : Host → ℕ → String → Target → Command Bool
queue_next host now contract t = do
  _queued ← enqueue_intent host now (stage_intent contract t.workspace_id t.run_id t.revision)
  return true

-- The transaction of `completeValidation`: the run moves on, and the intent of its next stage is left.
abbrev pub validation_body : Host → ℕ → Target → Command Bool
validation_body host now t = do
  changed ←
      update_many host.client runs (is_at t ProcessingStatus.validating)
        (advanced ProcessingStatus.analyzing)
  branch (eqb changed 1) (queue_next host now "document.analyze.v1" t) (return false)

unfoldable pub complete_validation : Host → ℕ → Target → Command Bool
complete_validation host now t = do
  run ← find_first host.client runs (is_at t ProcessingStatus.validating)
  branch (is_some run) (transaction host.client (validation_body host now t)) (return false)

abbrev pub reported : Json → ProcessingRun → ProcessingRun
reported report r = record r {
  status = ProcessingStatus.finalizing;
  result = some report;
  lease_expires_at = none;
}

abbrev pub analysis_body : Host → ℕ → Target → Json → Command Bool
analysis_body host now t report = do
  changed ← update_many host.client runs (is_at t ProcessingStatus.analyzing) (reported report)
  branch (eqb changed 1) (queue_next host now "document.finalize.v1" t) (return false)

unfoldable pub complete_analysis : Host → ℕ → Target → Json → Command Bool
complete_analysis host now t report = do
  run ← find_first host.client runs (is_at t ProcessingStatus.analyzing)
  branch (is_some run) (transaction host.client (analysis_body host now t report)) (return false)

abbrev pub is_working : ProcessingStatus → Bool
is_working s =
    is_status s ProcessingStatus.validating
    || is_status s ProcessingStatus.analyzing
    || is_status s ProcessingStatus.finalizing

unfoldable pub fail_stage : Client → Target → String → Command Bool
fail_stage client t error_code = do
  count ←
      update_many client runs (λ r. is_target t r && is_working r.status)
        (λ r. record r { status = failed; error_code = some error_code; lease_expires_at = none })
  return (eqb count 1)

-- What `completeFinalization` is given besides its target: the result's artifact, the random id of
-- the event, its time as a text, the random part of each delivery's id, and the decryption of an
-- endpoint's secret.
pub record Finalization : Type 0 where
  pub artifact : DocumentArtifact
  pub event_id : String
  pub occurred_at : String
  pub delivery_uuid : WebhookEndpoint → String
  pub decrypt : String → Result String

abbrev pub completed_event : String
completed_event = "document.processing.completed.v1"

abbrev pub event_metadata : Finalization → Target → ProcessingRun → Json
event_metadata f t run = obj (
    field "type" (str "document.processing.updated") (
      field "eventId" (str f.event_id) (
        field "occurredAt" (str f.occurred_at) (
          field "workspaceId" (str t.workspace_id)
            (field "documentId" (str run.document_id) (field "runId" (str run.id) end))))))

abbrev pub event_payload : Target → ProcessingRun → Json
event_payload t run = obj (
    field "workspaceId" (str t.workspace_id) (
      field "documentId" (str run.document_id)
        (field "runId" (str run.id) (field "status" (str "COMPLETED") end))))

abbrev pub is_text : String → Json → Bool
is_text s (str v) = v == s
is_text s _ = false

-- `Array.isArray(endpoint.events) && endpoint.events.includes(…)`
abbrev pub is_subscribed : Json → Bool
is_subscribed (arr vs) = any (is_text completed_event) (items vs)
is_subscribed _ = false

abbrev pub notification_intent : Finalization → Target → Intent
notification_intent f t = record {
  workspace_id = t.workspace_id;
  contract = "notification.publish.v1";
  business_id = f.event_id;
  revision = 1;
  payload = obj (
      field "workspaceId" (str t.workspace_id)
        (field "eventId" (str f.event_id) (field "revision" (num 1) end)));
  available_at = none;
}

abbrev pub delivery_intent : String → String → ℕ → Option ℕ → Intent
delivery_intent workspace_id delivery_id revision available_at = record {
  workspace_id = workspace_id;
  contract = "webhook.deliver.v1";
  business_id = delivery_id;
  revision = revision;
  payload = obj (
      field "workspaceId" (str workspace_id)
        (field "deliveryId" (str delivery_id) (field "revision" (num revision) end)));
  available_at = available_at;
}

-- The part of the loop behind its two `continue`s.
abbrev pub deliver_to :
    Host → ℕ → Finalization → Target → ProcessingRun → WebhookEndpoint → String → Command (Unit {0})
deliver_to host now f t run endpoint encrypted = do
  secret ← lift (f.decrypt encrypted)
  let envelope =
      prepare_webhook_envelope host completed_event f.event_id (event_payload t run) secret
  delivery ← prepare_delivery host (f.delivery_uuid endpoint) now (record {
    workspace_id = t.workspace_id;
    endpoint_id = endpoint.id;
    event_id = f.event_id;
    request_body = envelope.0;
    signature_input = envelope.1;
  })
  _queued ← enqueue_intent host now (delivery_intent t.workspace_id delivery.id 1 none)
  return tt

-- An empty text is no secret either.
abbrev pub deliver_unless_empty :
    Host → ℕ → Finalization → Target → ProcessingRun → WebhookEndpoint → String → Command (Unit {0})
deliver_unless_empty host now f t run endpoint encrypted =
    branch (encrypted == "") (return tt) (deliver_to host now f t run endpoint encrypted)

abbrev pub notify_endpoint :
    Host → ℕ → Finalization → Target → ProcessingRun → WebhookEndpoint → Command (Unit {0})
notify_endpoint host now f t run endpoint =
    branch (is_subscribed endpoint.events)
      (if_some endpoint.encrypted_secret (deliver_unless_empty host now f t run endpoint)
        (return tt))
      (return tt)

abbrev pub result_artifact : Finalization → Target → DocumentArtifact
result_artifact f t = record (f.artifact) {
  workspace_id = t.workspace_id;
  processing_run_id = some t.run_id;
  kind = result;
}

-- What follows once the run has been moved to COMPLETED.
abbrev pub announce : Host → ℕ → Finalization → Target → ProcessingRun → Command Bool
announce host now f t run = do
  _stored ←
      upsert host.client artifacts
        (λ r. r.workspace_id == t.workspace_id && r.id == (result_artifact f t).id) (λ r. r)
        (artifact_clash (result_artifact f t)) (result_artifact f t)
  _logged ←
      create host.client audit_logs (λ r. r.id == f.event_id)
        (record {
          id = f.event_id;
          workspace_id = t.workspace_id;
          principal_id = "worker";
          action = "processing.completed";
          resource_type = "processing_run";
          resource_id = some run.id;
          metadata = some (event_metadata f t run);
        })
  _queued ← enqueue_intent host now (notification_intent f t)
  found ← find_all host.client endpoints (λ r. r.workspace_id == t.workspace_id && r.active)
  for_each found (notify_endpoint host now f t run)
  return true

abbrev pub finalize_run : Host → ℕ → Finalization → Target → ProcessingRun → Command Bool
finalize_run host now f t run = do
  changed ← update_many host.client runs (is_at t ProcessingStatus.finalizing) (advanced completed)
  branch (eqb changed 1) (announce host now f t run) (return false)

abbrev pub finalize_if_due : Host → ℕ → Finalization → Target → ProcessingRun → Command Bool
finalize_if_due host now f t run =
    branch (is_status run.status ProcessingStatus.finalizing) (finalize_run host now f t run)
      (return false)

abbrev pub finalization_body : Host → ℕ → Finalization → Target → Command Bool
finalization_body host now f t = do
  found ← find_first host.client runs (is_target t)
  if_some found (finalize_if_due host now f t) (return false)

unfoldable pub complete_finalization : Host → ℕ → Finalization → Target → Command Bool
complete_finalization host now f t = transaction host.client (finalization_body host now f t)
