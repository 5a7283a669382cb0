-- ===== src/Api/Handlers.antt =====
-- apps/api/src/handlers/v1: the handlers, one for each route. The random ids, the time and the object
-- storage are in the environment.
use vkit_orbit.Base.{ℕ, String, Bool, Option, none, some, if◌then◌else◌}
use vkit_orbit.Host.{Host}
use vkit_orbit.Audit.{Scope}
use vkit_orbit.Json.{Json, obj, end}
use vkit_orbit.Store.Schema.{Document, DocumentArtifact, ProcessingRun, completed}
use vkit_orbit.Store.Client.{Result, ok, err, message}
use vkit_orbit.Store.Command.{Command, ◌>>=◌}
use vkit_orbit.Access.Queries.{get_document, get_processing_run}
use vkit_orbit.Documents.StateMachine.{assert_supported_upload}
use vkit_orbit.Json.Print.{◌<>◌}
use vkit_orbit.Processing.{is_status}
use vkit_orbit.Idempotency.{Reply, execute_idempotent}
use vkit_orbit.Documents.{
  SourceKey, Upload, lift, id_or, create_body, cancel_processing_run, confirm_document_upload,
  retry_processing_run, submit_processing_run,
}
use vkit_orbit.Api.Requests.{
  Request, Failure, app, thrown, returned, failed, Served, settled, filled, with_scope,
}

pub record Environment : Type 1 where
  pub host : Host
  pub now : ℕ
  -- the random ids of a call
  pub uuid : String
  pub made : String × String
  -- whether storage is configured, and its calls
  pub has_storage : Bool
  pub head : String → Result (Option ℕ)
  pub source_key : SourceKey
  -- a signed URL for a stored upload, by the reply that names its document and artifact
  pub upload_url : Scope → Reply (Document × DocumentArtifact) → Upload → Result String
  pub run_json : ProcessingRun → Json
  pub upload_json : Upload → Json
  pub created_json : Document × DocumentArtifact → Json

-- What a handler answers with: `missing` is a body with status 404.
pub data Body : Type 0 where
  document : Document → Body
  uploaded : Reply (Document × DocumentArtifact) → String → Body
  run : ProcessingRun → Body
  submitted : Reply ProcessingRun → Body
  run_result : String → Json → Body
  missing : String → Body

abbrev pub done : Body → Served Body
done b s = (returned b, s)

abbrev pub throw_served : Failure → Served Body
throw_served e s = (failed e, s)

-- A request on a route, with the ids of its path and its body.
pub data Call : Type 0 where
  confirm_upload : String → Call
  create_an_upload : Upload → Call
  read_document : String → Call
  submit_run : String → Call
  cancel_run : String → Call
  read_run : String → Call
  read_result : String → Call
  retry_run : String → Call

module _ (env : Environment) where
  -- `if (!config) throw new Error("storage is not configured")`
  abbrev pub with_storage : Served Body → Served Body
  with_storage body s =
      if env.has_storage then body s else (failed (thrown (message "storage is not configured")), s)

  unfoldable pub confirm_upload_handler : Request → String → Served Body
  confirm_upload_handler r document_id = with_scope env.host env.now r "documents:write" λ scope.
      with_storage λ s.
        settled (confirm_document_upload env.host env.uuid env.head scope document_id none s)
          λ d. done (document d)

  -- `createDocumentUpload` in a transaction that is open already.
  abbrev pub create_in_transaction : Scope → Upload → Command (Document × DocumentArtifact)
  create_in_transaction scope input = do
    _supported ← lift (assert_supported_upload input.content_type input.byte_size)
    create_body env.host env.uuid env.source_key env.now scope
        (id_or input.document_id ("doc_" <> env.made.0))
        (id_or input.artifact_id ("art_" <> env.made.1)) input

  abbrev pub answer_upload :
      Scope → Upload → Reply (Document × DocumentArtifact) → Result String → Served Body
  answer_upload scope input reply (ok url) s = (returned (uploaded reply url), s)
  answer_upload scope input reply (err e) s = (failed (thrown e), s)

  abbrev pub create_upload : Request → Upload → Option String → Scope → Served Body
  create_upload r input none scope = throw_served (
      app (record {
        code = "IDEMPOTENCY_KEY_REQUIRED";
        message = "Idempotency-Key header is required";
        status = 422;
      }))
  create_upload r input (some key) scope = λ s.
      settled
        (execute_idempotent env.host env.uuid scope "document-upload" key (env.upload_json input)
          env.created_json (create_in_transaction scope input) s)
        λ reply. with_storage (answer_upload scope input reply (env.upload_url scope reply input))

  unfoldable pub create_upload_handler : Request → Upload → Served Body
  create_upload_handler r input =
      with_scope env.host env.now r "documents:write"
        (create_upload r input (filled r.idempotency_key))

  abbrev pub found_document : Option Document → Served Body
  found_document none = done (missing "Document not found")
  found_document (some d) = done (document d)

  unfoldable pub get_document_handler : Request → String → Served Body
  get_document_handler r document_id =
      with_scope env.host env.now r "documents:read"
        λ scope s. settled (get_document env.host scope document_id s) found_document

  abbrev pub submit : Option String → String → Scope → Served Body
  submit none document_id scope = throw_served (thrown (message "IDEMPOTENCY_KEY_REQUIRED"))
  submit (some key) document_id scope = λ s.
      settled
        (submit_processing_run env.host env.run_json env.uuid env.made env.now scope document_id key
          s)
        λ reply. done (submitted reply)

  unfoldable pub submit_handler : Request → String → Served Body
  submit_handler r document_id =
      with_scope env.host env.now r "documents:write"
        (submit (filled r.idempotency_key) document_id)

  unfoldable pub cancel_handler : Request → String → Served Body
  cancel_handler r run_id =
      with_scope env.host env.now r "documents:write" λ scope s.
        settled (cancel_processing_run env.host env.uuid scope run_id s) λ x. done (run x)

  abbrev pub found_run : Option ProcessingRun → Served Body
  found_run none = done (missing "Processing run not found")
  found_run (some x) = done (run x)

  unfoldable pub get_run_handler : Request → String → Served Body
  get_run_handler r run_id =
      with_scope env.host env.now r "documents:read"
        λ scope s. settled (get_processing_run env.host scope run_id s) found_run

  -- `run.result ?? {}`
  abbrev pub or_empty : Option Json → Json
  or_empty none = obj end
  or_empty (some v) = v

  abbrev pub found_result : Option ProcessingRun → Served Body
  found_result none = done (missing "Processing result not found")
  found_result (some x) =
      if is_status completed x.status
      then done (run_result x.id (or_empty x.result))
      else done (missing "Processing result not found")

  unfoldable pub get_result_handler : Request → String → Served Body
  get_result_handler r run_id =
      with_scope env.host env.now r "documents:read"
        λ scope s. settled (get_processing_run env.host scope run_id s) found_result

  unfoldable pub retry_handler : Request → String → Served Body
  retry_handler r run_id = with_scope env.host env.now r "documents:write" λ scope s.
      settled (retry_processing_run env.host env.made env.now scope run_id s) λ x. done (run x)

  -- The routes.
  unfoldable pub handle : Request → Call → Served Body
  unfolding confirm_upload_handler create_upload_handler get_document_handler submit_handler
      cancel_handler get_run_handler get_result_handler retry_handler
  handle r (confirm_upload document_id) = confirm_upload_handler r document_id
  handle r (create_an_upload input) = create_upload_handler r input
  handle r (read_document document_id) = get_document_handler r document_id
  handle r (submit_run document_id) = submit_handler r document_id
  handle r (cancel_run run_id) = cancel_handler r run_id
  handle r (read_run run_id) = get_run_handler r run_id
  handle r (read_result run_id) = get_result_handler r run_id
  handle r (retry_run run_id) = retry_handler r run_id
