-- ===== src/Worker/Handlers.antt =====
-- apps/worker/src/handlers: what the worker does for a job whose payload has been parsed. The time at
-- which a stage is claimed and the time at which its work is done are arguments, and so is what the
-- job needs from outside the database.
use vkit_orbit.Base.{
  ℕ, ◌+◌, ◌-◌, ◌*◌, ◌^◌, min, String, Bool, true, false, ◌&&◌, ◌||◌, not, Option, none, some, leb,
  eqb, ◌==◌, if◌then◌else◌, is_some,
}
use vkit_orbit.Host.{Host}
use vkit_orbit.Json.{Json}
use vkit_orbit.Store.Schema.{
  Database, Document, completed, canceled, ProcessingRun, DeliveryStatus, WebhookDelivery,
}
use vkit_orbit.Store.Client.{Error, Result, ok, err}
use vkit_orbit.Store.Command.{
  Command, ◌>>=◌, ◌>>◌, return, branch, deliveries, documents, runs, find_first, update_many,
  transaction,
}
use vkit_orbit.Documents.{is_uploading}
use vkit_orbit.Outbox.{enqueue_intent}
use vkit_orbit.Processing.{
  Stage, Target, is_target, is_status, claim_stage, complete_validation, complete_analysis,
  complete_finalization, Finalization, fail_stage, delivery_intent,
}
use vkit_orbit.Recovery.{recover_processing, recover_webhooks, cleanup_documents, is_pending}
use vkit_orbit.Webhooks.{
  Outcome, Response, network, classify_webhook_response, record_webhook_attempt,
}

pub data HandlerResult : Type 0 where
  success no_op retryable terminal unknown : HandlerResult

-- `try { … } catch (error) { … }`: what was written before the throw stays, unless it was rolled back.
abbrev pub caught : {A : Type 0} → Result A × Database → (Error → Command A) → Result A × Database
caught (ok a, s) handler = (ok a, s)
caught (err e, s) handler = handler e s

abbrev pub try : {A : Type 0} → Command A → (Error → Command A) → Command A
try body handler s = caught (body s) handler

-- The three handlers of the stages: claim, do the work, and fail the stage if the work throws. `name`
-- is `error.name`.
abbrev pub run_stage : Host → (Error → String) → Target → Command Bool → Command HandlerResult
run_stage host name t work =
    try (do work; return HandlerResult.success)
      (λ e. do fail_stage host.client t (name e); return HandlerResult.retryable)

abbrev pub handle_stage :
    Host → (Error → String) → ℕ → Target → Stage → Command Bool → Command HandlerResult
handle_stage host name now t stage work = do
  claimed ← claim_stage host.client now t stage 60000
  branch claimed (run_stage host name t work) (return HandlerResult.no_op)

unfoldable pub handle_document_validate :
    Host → (Error → String) → ℕ → ℕ → Target → Command HandlerResult
handle_document_validate host name now later t =
    handle_stage host name now t Stage.validating (complete_validation host later t)

-- `read_report` reads the content of the run's document and builds its report.
unfoldable pub handle_document_analyze :
    Host → (Error → String) → ℕ → ℕ → (String → Command Json) → Target → Command HandlerResult
handle_document_analyze host name now later read_report t =
    handle_stage host name now t Stage.analyzing
      (do report ← read_report t.run_id; complete_analysis host later t report)

-- `make_artifact` stores the result and describes it, with what the completion needs from outside.
unfoldable pub handle_document_finalize :
    Host
    → (Error → String)
    → ℕ
    → ℕ
    → (String → Command Finalization)
    → Target
    → Command HandlerResult
handle_document_finalize host name now later make_artifact t =
    handle_stage host name now t Stage.finalizing
      (do f ← make_artifact t.run_id; complete_finalization host later f t)

abbrev pub is_recoverable : Target → ProcessingRun → Bool
is_recoverable t r =
    is_target t r && not (is_status r.status completed || is_status r.status canceled)

unfoldable pub handle_document_recover : Host → ℕ → Target → Command HandlerResult
handle_document_recover host now t = do
  run ← find_first host.client runs (is_recoverable t)
  branch (is_some run)
      (recover_processing host now (some 1) (some t.workspace_id) (some t.run_id)
        >> return HandlerResult.success)
      (return HandlerResult.no_op)

abbrev pub is_unfinished_upload : String → String → Document → Bool
is_unfinished_upload workspace_id document_id r =
    r.workspace_id == workspace_id && r.id == document_id && is_uploading r.status

-- `day_before` is the time of a day ago.
unfoldable pub handle_document_cleanup : Host → ℕ → String → String → Command HandlerResult
handle_document_cleanup host day_before workspace_id document_id = do
  document ← find_first host.client documents (is_unfinished_upload workspace_id document_id)
  branch (is_some document)
      (cleanup_documents host.client day_before (some 1) (some workspace_id) (some document_id)
        >> return HandlerResult.success)
      (return HandlerResult.no_op)

-- The payload of a `webhook.deliver.v1` job; the schema requires a positive revision.
pub record DeliveryJob : Type 0 where
  pub workspace_id : String
  pub delivery_id : String
  pub revision : ℕ

-- `attempts: payload.revision - 1`, over the integers.
abbrev pub is_next_attempt : ℕ → DeliveryJob → WebhookDelivery → Bool
is_next_attempt now job r =
    r.workspace_id == job.workspace_id
    && r.id == job.delivery_id
    && is_pending r.status
    && eqb (r.attempts + 1) job.revision
    && leb r.next_attempt_at now

abbrev pub in_flight : ℕ → WebhookDelivery → WebhookDelivery
in_flight until r = record r { status = DeliveryStatus.processing; lease_expires_at = some until }

abbrev pub is_success : Outcome → Bool
is_success Outcome.success = true
is_success _ = false

abbrev pub retried_unknown : Outcome → Outcome
retried_unknown Outcome.unknown = Outcome.retryable
retried_unknown o = o

unfoldable pub delivery_outcome : ℕ → Outcome → Outcome
delivery_outcome revision classified =
    if leb 8 revision && not (is_success classified)
    then Outcome.terminal
    else retried_unknown classified

-- `Math.min(60_000, 1_000 * 2 ** (revision - 1))`
unfoldable pub delivery_delay : ℕ → ℕ
delivery_delay revision = min 60000 (1000 * 2 ^ (revision - 1))

-- `deliver` gives no response where it throws.
abbrev pub response_of : Option Response → Response
response_of none = network
response_of (some r) = r

abbrev pub retry_delivery : Host → ℕ → DeliveryJob → Command (Unit {0})
retry_delivery host now job = do
  _recorded ←
      record_webhook_attempt host.client job.workspace_id job.delivery_id Outcome.retryable
        (some (now + delivery_delay job.revision))
  _queued ← enqueue_intent host now (
      delivery_intent job.workspace_id job.delivery_id (job.revision + 1)
        (some (now + delivery_delay job.revision)))
  return tt

abbrev pub result_of : Outcome → HandlerResult
result_of Outcome.success = HandlerResult.success
result_of Outcome.retryable = HandlerResult.retryable
result_of Outcome.terminal = HandlerResult.terminal
result_of Outcome.unknown = HandlerResult.unknown

abbrev pub settle_delivery : Host → ℕ → DeliveryJob → Outcome → Command HandlerResult
settle_delivery host now job Outcome.retryable =
    transaction host.client (retry_delivery host now job) >> return HandlerResult.success
settle_delivery host now job outcome = do
  _recorded ← record_webhook_attempt host.client job.workspace_id job.delivery_id outcome none
  return (result_of outcome)

unfoldable pub handle_webhook_deliver :
    Host → ℕ → ℕ → (String → Option Response) → DeliveryJob → Command HandlerResult
handle_webhook_deliver host now later deliver job = do
  count ← update_many host.client deliveries (is_next_attempt now job) (in_flight (now + 30000))
  branch (eqb count 1)
      (settle_delivery host later job (
        delivery_outcome job.revision
          (classify_webhook_response (response_of (deliver job.delivery_id)))))
      (return HandlerResult.no_op)

-- apps/worker/src/handlers/maintenance-v1.ts
unfoldable pub handle_processing_recovery : Host → ℕ → ℕ → Command HandlerResult
handle_processing_recovery host now limit =
    recover_processing host now (some limit) none none >> return HandlerResult.success

unfoldable pub handle_webhook_recovery : Host → ℕ → ℕ → Command HandlerResult
handle_webhook_recovery host now limit =
    recover_webhooks host now (some limit) >> return HandlerResult.success

unfoldable pub handle_upload_cleanup : Host → ℕ → ℕ → Command HandlerResult
handle_upload_cleanup host day_before limit =
    cleanup_documents host.client day_before (some limit) none none >> return HandlerResult.success
