-- ===== src/Recovery.antt =====
-- packages/application/src/recovery: what the scheduled jobs put back on its way. A filter that is
-- `undefined` is `none`, and Prisma leaves it out.
use vkit_orbit.Base.{
  ℕ, ◌+◌, String, Bool, true, false, ◌&&◌, ◌||◌, Option, none, some, List, any, length, ltb, leb,
  eqb, ◌==◌, max,
}
use vkit_orbit.Host.{Host}
use vkit_orbit.Store.Schema.{
  Document, DocumentArtifact, ProcessingStatus, queued, ProcessingRun, QueueOutbox, OutboxStatus,
  published, DeliveryStatus, WebhookDelivery, source,
}
use vkit_orbit.Store.Client.{Client, desc, unordered}
use vkit_orbit.Store.Command.{
  Command, ◌>>=◌, ◌>>◌, return, for_each, artifacts, deliveries, outbox, runs, find_many,
  update_many, delete,
}
use vkit_orbit.Outbox.{enqueue_intent, earlier}
use vkit_orbit.Documents.{stage_intent, is_uploading}
use vkit_orbit.Processing.{is_working, is_status, is_unleased, delivery_intent}

abbrev pub fits : Option String → String → Bool
fits none value = true
fits (some wanted) value = value == wanted

abbrev pub limit_or_100 : Option ℕ → ℕ
limit_or_100 none = 100
limit_or_100 (some n) = n

abbrev pub is_stuck : ℕ → Option String → Option String → ProcessingRun → Bool
is_stuck now workspace_id run_id r =
    fits workspace_id r.workspace_id
    && fits run_id r.id
    && (is_status r.status queued || is_working r.status)
    && is_unleased now r.lease_expires_at

abbrev pub stage_contract : ProcessingStatus → String
stage_contract queued = "document.validate.v1"
stage_contract ProcessingStatus.validating = "document.validate.v1"
stage_contract ProcessingStatus.analyzing = "document.analyze.v1"
stage_contract _ = "document.finalize.v1"

abbrev pub is_published : OutboxStatus → Bool
is_published published = true
is_published _ = false

abbrev pub is_published_intent : String → String → String → ℕ → QueueOutbox → Bool
is_published_intent workspace_id business_id contract revision r =
    r.workspace_id == workspace_id
    && r.business_id == business_id
    && r.contract == contract
    && eqb r.revision revision
    && is_published r.status

abbrev pub republished : ℕ → QueueOutbox → QueueOutbox
republished now r = record r {
  status = OutboxStatus.pending;
  available_at = now;
  claimed_at = none;
  published_at = none;
}

abbrev pub recover_run : Host → ℕ → ProcessingRun → Command (Unit {0})
recover_run host now run = do
  _reset ←
      update_many host.client outbox
        (is_published_intent run.workspace_id run.id (stage_contract run.status) run.stage_revision)
        (republished now)
  _queued ←
      enqueue_intent host now
        (stage_intent (stage_contract run.status) run.workspace_id run.id run.stage_revision)
  return tt

unfoldable pub recover_processing : Host → ℕ → Option ℕ → Option String → Option String → Command ℕ
recover_processing host now limit workspace_id run_id = do
  found ←
      find_many host.client runs (is_stuck now workspace_id run_id) (desc (λ r. r.created_at))
        (limit_or_100 limit)
  for_each found (recover_run host now)
  return (length found)

abbrev pub is_abandoned : ℕ → WebhookDelivery → Bool
is_abandoned now r =
    elim r.status [ DeliveryStatus.processing ↦ true | _ ↦ false ] && earlier r.lease_expires_at now

abbrev pub is_pending : DeliveryStatus → Bool
is_pending DeliveryStatus.pending = true
is_pending _ = false

abbrev pub is_due : ℕ → WebhookDelivery → Bool
is_due now r = is_pending r.status && leb r.next_attempt_at now

-- `Math.max(1, delivery.attempts + 1)`
abbrev pub next_revision : WebhookDelivery → ℕ
next_revision r = max 1 (r.attempts + 1)

abbrev pub recover_delivery : Host → ℕ → WebhookDelivery → Command (Unit {0})
recover_delivery host now d = do
  _reset ←
      update_many host.client outbox
        (is_published_intent d.workspace_id d.id "webhook.deliver.v1" (next_revision d))
        (republished now)
  _queued ← enqueue_intent host now (delivery_intent d.workspace_id d.id (next_revision d) none)
  return tt

unfoldable pub recover_webhooks : Host → ℕ → Option ℕ → Command ℕ
recover_webhooks host now limit = do
  _released ←
      update_many host.client deliveries (is_abandoned now)
        (λ r. record r { status = DeliveryStatus.pending; lease_expires_at = none })
  due ← find_many host.client deliveries (is_due now) unordered (limit_or_100 limit)
  for_each due (recover_delivery host now)
  return (length due)

-- `document: { status: "UPLOADING" }`, through the relation.
abbrev pub is_of_uploading : List Document → DocumentArtifact → Bool
is_of_uploading rows a =
    any (λ d. d.workspace_id == a.workspace_id && d.id == a.document_id && is_uploading d.status)
      rows

abbrev pub is_leftover : ℕ → Option String → Option String → List Document → DocumentArtifact → Bool
is_leftover before workspace_id document_id rows a =
    elim a.kind [ source ↦ true | _ ↦ false ]
    && fits workspace_id a.workspace_id
    && fits document_id a.document_id
    && ltb a.created_at before
    && is_of_uploading rows a

abbrev pub find_leftovers :
    Client → ℕ → Option ℕ → Option String → Option String → Command (List DocumentArtifact)
find_leftovers client before limit workspace_id document_id s =
    find_many client artifacts (is_leftover before workspace_id document_id s.documents) unordered
      (limit_or_100 limit) s

abbrev pub delete_artifact : Client → DocumentArtifact → Command (Unit {0})
delete_artifact client a =
    delete client artifacts (λ r. r.workspace_id == a.workspace_id && r.id == a.id)

unfoldable pub cleanup_documents : Client → ℕ → Option ℕ → Option String → Option String → Command ℕ
cleanup_documents client before limit workspace_id document_id = do
  found ← find_leftovers client before limit workspace_id document_id
  for_each found (delete_artifact client)
  return (length found)
