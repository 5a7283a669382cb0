-- ===== src/Documents.antt =====
-- packages/application/src/documents: the commands on documents and on processing runs. The random
-- part of a new id and the time of the call are arguments.
pub mod StateMachine
pub mod Submission
use vkit_orbit.Base.{
  ℕ, suc, ◌+◌, String, Bool, true, false, ◌&&◌, ◌||◌, not, Option, none, some, List, [], ◌∷◌,
  length, eqb, ◌==◌, if◌then◌else◌,
}
use vkit_orbit.Host.{Host}
use vkit_orbit.Audit.{Scope, entry, write_audit_log}
use vkit_orbit.Json.{Json, num, str, obj, end, field}
use vkit_orbit.Json.Print.{◌<>◌}
use vkit_orbit.Store.Schema.{
  DocumentStatus, uploading, ready, ProcessingStatus, queued, completed, failed, canceled, source,
  Document, DocumentArtifact, ProcessingRun,
}
use vkit_orbit.Store.Client.{Client, Result, ok, err, message, not_found}
use vkit_orbit.Store.Command.{
  Command, ◌>>=◌, ◌>>◌, return, throw, throw_if, require, documents, artifacts, runs, find_first,
  count, create, update, transaction,
}
use vkit_orbit.Outbox.{Intent, enqueue_intent}
use vkit_orbit.Idempotency.{Reply, execute_idempotent}
use StateMachine.{assert_supported_upload}

-- `{ workspaceId: scope.workspaceId, id }`, of the tables that the commands search.
abbrev pub is_document : String → String → Document → Bool
is_document workspace_id id r = r.workspace_id == workspace_id && r.id == id

abbrev pub is_run : String → String → ProcessingRun → Bool
is_run workspace_id id r = r.workspace_id == workspace_id && r.id == id

abbrev pub is_uploading : DocumentStatus → Bool
is_uploading uploading = true
is_uploading ready = false

abbrev pub is_source : String → String → DocumentArtifact → Bool
is_source workspace_id document_id r =
    r.workspace_id == workspace_id
    && r.document_id == document_id
    && elim r.kind [ source ↦ true | _ ↦ false ]

-- `["COMPLETED", "FAILED", "CANCELED"]`
abbrev pub is_terminal : ProcessingStatus → Bool
is_terminal completed = true
is_terminal failed = true
is_terminal canceled = true
is_terminal _ = false

abbrev pub is_failed : ProcessingStatus → Bool
is_failed failed = true
is_failed _ = false

-- A failure of a call that is no command is thrown in the command that makes it.
unfoldable pub lift : {A : Type 0} → Result A → Command A
unfolding return throw
lift (ok a) = return a
lift (err e) = throw e

-- `cancelProcessingRun`
abbrev pub cancel_body : Host → String → Scope → String → Command ProcessingRun
cancel_body host uuid scope run_id = do
  found ← find_first host.client runs (is_run scope.workspace_id run_id)
  run ← require found (message "run not found")
  throw_if (is_terminal run.status) (message "invalid processing state")
  updated ← update host.client runs (λ r. r.id == run.id) (λ r. record r { status = canceled })
  _logged ← write_audit_log host uuid (entry scope "processing.canceled" "processing_run" run.id)
  return updated

unfoldable pub cancel_processing_run : Host → String → Scope → String → Command ProcessingRun
cancel_processing_run host uuid scope run_id =
    transaction host.client (cancel_body host uuid scope run_id)

-- `confirmDocumentUpload`; `head` asks the object storage for the length of an object.
abbrev pub is_other_length : Option ℕ → ℕ → Bool
is_other_length none size = false
is_other_length (some length) size = not (eqb length size)

abbrev pub is_other_revision : Option ℕ → Bool
is_other_revision none = false
is_other_revision (some n) = not (eqb n 1)

abbrev pub confirm_body :
    Host → String → (String → Result (Option ℕ)) → Scope → String → Option ℕ → Command Document
confirm_body host uuid head scope document_id revision = do
  found ← find_first host.client documents (is_document scope.workspace_id document_id)
  document ← require found (not_found "document not found")
  throw_if (is_other_revision revision) (message "stale revision")
  throw_if (not (is_uploading document.status)) (message "invalid document state")
  stored ← find_first host.client artifacts (is_source scope.workspace_id document.id)
  artifact ← require stored (message "source artifact not found")
  content_length ← lift (head artifact.object_key)
  throw_if (is_other_length content_length document.byte_size)
      (message "uploaded size does not match")
  updated ←
      update host.client documents (λ r. r.id == document.id) (λ r. record r { status = ready })
  _logged ←
      write_audit_log host uuid (entry scope "document.upload.confirmed" "document" document.id)
  return updated

unfoldable pub confirm_document_upload :
    Host → String → (String → Result (Option ℕ)) → Scope → String → Option ℕ → Command Document
confirm_document_upload host uuid head scope document_id revision =
    transaction host.client (confirm_body host uuid head scope document_id revision)

-- packages/storage/src/keys.ts checks each part of the key and may throw.
abbrev pub SourceKey : Type 0
SourceKey = String → String → String → Result String

pub record Upload : Type 0 where
  pub document_id : Option String
  pub artifact_id : Option String
  pub title : String
  pub content_type : String
  pub byte_size : ℕ

abbrev pub id_or : Option String → String → String
id_or none made = made
id_or (some id) made = id

abbrev pub upload_document : Scope → String → Upload → Document
upload_document scope document_id input = record {
  id = document_id;
  workspace_id = scope.workspace_id;
  title = input.title;
  content_type = input.content_type;
  byte_size = input.byte_size;
  status = uploading;
}

abbrev pub upload_artifact : Scope → String → String → String → ℕ → Upload → DocumentArtifact
upload_artifact scope document_id artifact_id object_key now input = record {
  id = artifact_id;
  workspace_id = scope.workspace_id;
  document_id = document_id;
  processing_run_id = none;
  kind = source;
  object_key = object_key;
  content_type = input.content_type;
  byte_size = input.byte_size;
  checksum = none;
  created_at = now;
}

-- The unique indices of the artifacts.
abbrev pub artifact_clash : DocumentArtifact → DocumentArtifact → Bool
artifact_clash n r =
    r.id == n.id || r.workspace_id == n.workspace_id && r.object_key == n.object_key

abbrev pub create_body :
    Host
    → String
    → SourceKey
    → ℕ
    → Scope
    → String
    → String
    → Upload
    → Command (Document × DocumentArtifact)
create_body host uuid source_key now scope document_id artifact_id input = do
  document ←
      create host.client documents (λ r. r.id == document_id)
        (upload_document scope document_id input)
  object_key ← lift (source_key scope.workspace_id document_id artifact_id)
  artifact ←
      create host.client artifacts
        (artifact_clash (upload_artifact scope document_id artifact_id object_key now input))
        (upload_artifact scope document_id artifact_id object_key now input)
  _logged ← write_audit_log host uuid (entry scope "document.upload.created" "document" document_id)
  return (document, artifact)

-- `createDocumentUpload` on a client that can open a transaction; `made` are the two random ids.
unfoldable pub create_document_upload :
    Host
    → String
    → SourceKey
    → ℕ
    → Scope
    → String × String
    → Upload
    → Command (Document × DocumentArtifact)
create_document_upload host uuid source_key now scope made input = do
  _supported ← lift (assert_supported_upload input.content_type input.byte_size)
  transaction host.client (
      create_body host uuid source_key now scope (id_or input.document_id ("doc_" <> made.0))
        (id_or input.artifact_id ("art_" <> made.1)) input)

abbrev pub new_run : String → String → String → ℕ → ℕ → ProcessingRun
new_run uuid workspace_id document_id revision now = record {
  id = "run_" <> uuid;
  workspace_id = workspace_id;
  document_id = document_id;
  revision = revision;
  status = queued;
  stage_revision = 1;
  lease_expires_at = none;
  error_code = none;
  result = none;
  created_at = now;
}

-- The unique indices of the runs.
abbrev pub run_clash : ProcessingRun → ProcessingRun → Bool
run_clash n r =
    r.id == n.id
    || r.workspace_id == n.workspace_id
      && r.document_id == n.document_id
      && eqb r.revision n.revision

-- `{ workspaceId, runId, revision }`
abbrev pub stage_payload : String → String → ℕ → Json
stage_payload workspace_id run_id revision = obj (
    field "workspaceId" (str workspace_id)
      (field "runId" (str run_id) (field "revision" (num revision) end)))

abbrev pub stage_intent : String → String → String → ℕ → Intent
stage_intent contract workspace_id run_id revision = record {
  workspace_id = workspace_id;
  contract = contract;
  business_id = run_id;
  revision = revision;
  payload = stage_payload workspace_id run_id revision;
  available_at = none;
}

-- `retryProcessingRun`
abbrev pub retry_body : Host → String × String → ℕ → Scope → String → Command ProcessingRun
retry_body host made now scope run_id = do
  found ← find_first host.client runs (is_run scope.workspace_id run_id)
  old ← require found (message "run not found")
  throw_if (not (is_failed old.status)) (message "only failed runs can be retried")
  run ←
      create host.client runs
        (run_clash (new_run made.0 scope.workspace_id old.document_id (old.revision + 1) now))
        (new_run made.0 scope.workspace_id old.document_id (old.revision + 1) now)
  _queued ←
      enqueue_intent host now
        (stage_intent "document.validate.v1" scope.workspace_id run.id run.stage_revision)
  _logged ← write_audit_log host made.1 (entry scope "processing.retried" "processing_run" run.id)
  return run

unfoldable pub retry_processing_run :
    Host → String × String → ℕ → Scope → String → Command ProcessingRun
retry_processing_run host made now scope run_id =
    transaction host.client (retry_body host made now scope run_id)

-- `submitProcessingRun`; the runs of the document are counted by reading them.
abbrev pub is_run_of : String → String → ProcessingRun → Bool
is_run_of workspace_id document_id r =
    r.workspace_id == workspace_id && r.document_id == document_id

abbrev pub submit_action : Host → String × String → ℕ → Scope → String → Command ProcessingRun
submit_action host made now scope document_id = do
  found ← find_first host.client documents (is_document scope.workspace_id document_id)
  document ← require found (message "document not found")
  throw_if (is_uploading document.status) (message "document is not ready")
  earlier ← count host.client runs (is_run_of scope.workspace_id document.id)
  run ←
      create host.client runs
        (run_clash (new_run made.0 scope.workspace_id document.id (earlier + 1) now))
        (new_run made.0 scope.workspace_id document.id (earlier + 1) now)
  _queued ←
      enqueue_intent host now
        (stage_intent "document.validate.v1" scope.workspace_id run.id run.stage_revision)
  _logged ← write_audit_log host made.1 (entry scope "processing.submitted" "processing_run" run.id)
  return run

unfoldable pub submit_processing_run :
    Host
    → (ProcessingRun → Json)
    → String
    → String × String
    → ℕ
    → Scope
    → String
    → String
    → Command (Reply ProcessingRun)
submit_processing_run host to_json uuid made now scope document_id key =
    execute_idempotent host uuid scope "submit-processing" key
      (obj (field "documentId" (str document_id) end)) to_json
      (submit_action host made now scope document_id)
