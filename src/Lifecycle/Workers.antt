-- ===== src/Lifecycle/Workers.antt =====
-- The recovery, the relay's claims and the job handlers keep to the life of a run.
use vkit_orbit.Base.{ℕ, String, Bool, Option, List}
use vkit_orbit.Host.{Host}
use vkit_orbit.Json.{Json}
use vkit_orbit.Store.Schema.{
  Database, DocumentArtifact, ProcessingRun, QueueOutbox, WebhookDelivery,
}
use vkit_orbit.Store.Client.{Client, Error, Result, ok, err}
use vkit_orbit.Store.Command.{
  Command, ◌>>=◌, outbox, deliveries, artifacts, runs, documents, update_many, update, delete,
}
use vkit_orbit.Store.Rules.{
  Steps, Steps->>=, Steps->>, Steps-branch, Steps-if_some, Steps-return, Steps-throw,
  Steps-throw_if, Steps-for_each, Steps-find_first, Steps-find_many, Steps-update_many,
  Steps-update, Steps-delete, Steps-transaction,
}
use vkit_orbit.Outbox.{claim_row, claim_rows, claim_outbox_batch}
use vkit_orbit.Processing.{Stage, Target, Finalization}
use vkit_orbit.Recovery.{
  recover_run, recover_processing, recover_delivery, recover_webhooks, find_leftovers,
  delete_artifact, cleanup_documents,
}
use vkit_orbit.Webhooks.{Outcome, Response, record_webhook_attempt}
use vkit_orbit.Worker.Handlers.{
  caught, try, handle_stage, handle_document_validate, handle_document_analyze,
  handle_document_finalize, handle_document_recover, handle_document_cleanup, DeliveryJob,
  settle_delivery, handle_webhook_deliver,
}
use vkit_orbit.Lifecycle.Order.{RunsEvolve, RunsEvolve-refl, RunsEvolve-trans, lifecycle}
use vkit_orbit.Lifecycle.Stages.{
  enqueue_intent-lifecycle, claim_stage-Steps, complete_validation-Steps, complete_analysis-Steps,
  complete_finalization-Steps, fail_stage-Steps,
}

update_many_outbox :
    (client : Client) (p : QueueOutbox → Bool) (f : QueueOutbox → QueueOutbox)
    → Steps lifecycle (update_many client outbox p f)
update_many_outbox client p f =
    Steps-update_many lifecycle client outbox p f (λ s. RunsEvolve-refl s)

update_many_deliveries :
    (client : Client) (p : WebhookDelivery → Bool) (f : WebhookDelivery → WebhookDelivery)
    → Steps lifecycle (update_many client deliveries p f)
update_many_deliveries client p f =
    Steps-update_many lifecycle client deliveries p f (λ s. RunsEvolve-refl s)

ruleset rules = (
  Steps->>=, Steps->>, Steps-branch, Steps-if_some, Steps-return, Steps-throw, Steps-throw_if,
  Steps-transaction, Steps-find_first, Steps-find_many, enqueue_intent-lifecycle,
  update_many_outbox, update_many_deliveries,
)

recover_run-Steps :
    (host : Host) (now : ℕ) (run : ProcessingRun) → Steps lifecycle (recover_run host now run)
recover_run-Steps host now run = search rules

pub recover_processing-Steps :
    (host : Host) (now : ℕ) (limit : Option ℕ) (workspace_id run_id : Option String)
    → Steps lifecycle (recover_processing host now limit workspace_id run_id)
unfolding recover_processing
recover_processing-Steps host now limit workspace_id run_id =
    search (rules, Steps-for_each, recover_run-Steps)

recover_delivery-Steps :
    (host : Host) (now : ℕ) (d : WebhookDelivery) → Steps lifecycle (recover_delivery host now d)
recover_delivery-Steps host now d = search rules

pub recover_webhooks-Steps :
    (host : Host) (now : ℕ) (limit : Option ℕ) → Steps lifecycle (recover_webhooks host now limit)
unfolding recover_webhooks
recover_webhooks-Steps host now limit =
    search (rules, Steps-for_each, recover_delivery-Steps) depth 9

pub claim_rows-Steps :
    (client : Client) (now : ℕ) (rows : List QueueOutbox)
    → Steps lifecycle (claim_rows client now rows)
unfolding claim_rows claim_row
claim_rows-Steps client now List.[] = Steps-return lifecycle _
claim_rows-Steps client now (List.◌∷◌ row rows) =
    Steps->>= lifecycle _ _ (update_many_outbox client _ _) (λ n.
      Steps->>= lifecycle _ _ (claim_rows-Steps client now rows)
        (λ later. Steps-return lifecycle _))

pub claim_outbox_batch-Steps :
    (client : Client) (now limit : ℕ) → Steps lifecycle (claim_outbox_batch client now limit)
unfolding claim_outbox_batch
claim_outbox_batch-Steps client now limit = search (rules, claim_rows-Steps)

delete_artifact-Steps :
    (client : Client) (a : DocumentArtifact) → Steps lifecycle (delete_artifact client a)
delete_artifact-Steps client a = Steps-delete lifecycle client artifacts _ (λ s. RunsEvolve-refl s)

find_leftovers-Steps :
    (client : Client) (before : ℕ) (limit : Option ℕ) (workspace_id document_id : Option String)
    → Steps lifecycle (find_leftovers client before limit workspace_id document_id)
unfolding vkit_orbit.Store.Command.find_many
find_leftovers-Steps client before limit workspace_id document_id = record {
  at = λ s. RunsEvolve-refl s;
}

pub cleanup_documents-Steps :
    (client : Client) (before : ℕ) (limit : Option ℕ) (workspace_id document_id : Option String)
    → Steps lifecycle (cleanup_documents client before limit workspace_id document_id)
unfolding cleanup_documents
cleanup_documents-Steps client before limit workspace_id document_id =
    Steps->>= lifecycle _ _ (find_leftovers-Steps client before limit workspace_id document_id)
      (λ found.
        Steps->> lifecycle _ _ (Steps-for_each lifecycle found _ (delete_artifact-Steps client))
          (Steps-return lifecycle _))

record_webhook_attempt-Steps :
    (client : Client) (workspace_id delivery_id : String) (outcome : Outcome) (next : Option ℕ)
    → Steps lifecycle (record_webhook_attempt client workspace_id delivery_id outcome next)
unfolding record_webhook_attempt
record_webhook_attempt-Steps client workspace_id delivery_id outcome next =
    Steps-update lifecycle client deliveries _ _ (λ s. RunsEvolve-refl s)

caught-Rel :
    {A : Type 0} (s : Database) (r : Result A × Database) (handler : Error → Command A)
    → RunsEvolve s r.1
    → ((e : Error) → Steps lifecycle (handler e))
    → RunsEvolve s (caught r handler).1
caught-Rel s (ok a, t) handler h k = h
caught-Rel s (err e, t) handler h k = RunsEvolve-trans s t (handler e t).1 h ((k e).at t)

try-Steps :
    {A : Type 0} (body : Command A) (handler : Error → Command A)
    → Steps lifecycle body
    → ((e : Error) → Steps lifecycle (handler e))
    → Steps lifecycle (try body handler)
try-Steps body handler h k = record { at = λ s. caught-Rel s (body s) handler (h.at s) k }

handle_stage-Steps :
    (host : Host) (name : Error → String) (now : ℕ) (t : Target) (stage : Stage)
    (work : Command Bool)
    → Steps lifecycle work
    → Steps lifecycle (handle_stage host name now t stage work)
handle_stage-Steps host name now t stage work h =
    Steps->>= lifecycle _ _ (claim_stage-Steps host.client now t stage 60000) (λ claimed.
      Steps-branch lifecycle claimed _ _
        (try-Steps _ _ (Steps->> lifecycle work _ h (Steps-return lifecycle _)) (λ e.
          Steps->> lifecycle _ _ (fail_stage-Steps host.client t (name e))
            (Steps-return lifecycle _)))
        (Steps-return lifecycle _))

pub handle_document_validate-Steps :
    (host : Host) (name : Error → String) (now later : ℕ) (t : Target)
    → Steps lifecycle (handle_document_validate host name now later t)
unfolding handle_document_validate
handle_document_validate-Steps host name now later t =
    handle_stage-Steps host name now t Stage.validating _ (complete_validation-Steps host later t)

pub handle_document_analyze-Steps :
    (host : Host) (name : Error → String) (now later : ℕ) (read_report : String → Command Json)
    (t : Target)
    → ((id : String) → Steps lifecycle (read_report id))
    → Steps lifecycle (handle_document_analyze host name now later read_report t)
unfolding handle_document_analyze
handle_document_analyze-Steps host name now later read_report t h =
    handle_stage-Steps host name now t Stage.analyzing _
      (Steps->>= lifecycle _ _ (h t.run_id) (complete_analysis-Steps host later t))

pub handle_document_finalize-Steps :
    (host : Host) (name : Error → String) (now later : ℕ)
    (make_artifact : String → Command Finalization) (t : Target)
    → ((id : String) → Steps lifecycle (make_artifact id))
    → Steps lifecycle (handle_document_finalize host name now later make_artifact t)
unfolding handle_document_finalize
handle_document_finalize-Steps host name now later make_artifact t h =
    handle_stage-Steps host name now t Stage.finalizing _
      (Steps->>= lifecycle _ _ (h t.run_id) (λ f. complete_finalization-Steps host later f t))

pub handle_document_recover-Steps :
    (host : Host) (now : ℕ) (t : Target) → Steps lifecycle (handle_document_recover host now t)
unfolding handle_document_recover
handle_document_recover-Steps host now t = search (rules, recover_processing-Steps)

pub handle_document_cleanup-Steps :
    (host : Host) (day_before : ℕ) (workspace_id document_id : String)
    → Steps lifecycle (handle_document_cleanup host day_before workspace_id document_id)
unfolding handle_document_cleanup
handle_document_cleanup-Steps host day_before workspace_id document_id =
    search (rules, cleanup_documents-Steps)

settle_delivery-Steps :
    (host : Host) (now : ℕ) (job : DeliveryJob) (outcome : Outcome)
    → Steps lifecycle (settle_delivery host now job outcome)
settle_delivery-Steps host now job Outcome.retryable =
    search (rules, record_webhook_attempt-Steps) depth 8
settle_delivery-Steps host now job Outcome.success = search (rules, record_webhook_attempt-Steps)
settle_delivery-Steps host now job Outcome.terminal = search (rules, record_webhook_attempt-Steps)
settle_delivery-Steps host now job Outcome.unknown = search (rules, record_webhook_attempt-Steps)

pub handle_webhook_deliver-Steps :
    (host : Host) (now later : ℕ) (deliver : String → Option Response) (job : DeliveryJob)
    → Steps lifecycle (handle_webhook_deliver host now later deliver job)
unfolding handle_webhook_deliver
handle_webhook_deliver-Steps host now later deliver job = search (rules, settle_delivery-Steps)
