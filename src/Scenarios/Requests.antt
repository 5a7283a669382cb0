-- ===== src/Scenarios/Requests.antt =====
-- Requests to the API at concrete values.
use vkit_orbit.Base.{true, ◌≡◌, refl, none, some}
use vkit_orbit.Json.{str, obj, end}
use vkit_orbit.Store.Client.{ok}
use vkit_orbit.Store.Command.{run as commands_run}
use vkit_orbit.Store.Reference.{client}
use vkit_orbit.Access.Permissions.{require_api_scope}
use vkit_orbit.Access.ApiKeys.{authenticate_api_key}
use vkit_orbit.Access.Queries.{authorize, get_document}
use vkit_orbit.Documents.{retry_processing_run}
use vkit_orbit.Api.Requests.{
  Request, credential, authenticated_principal, Outcome, returned, with_scope,
}
use vkit_orbit.Api.Handlers.{Environment, Body, document, read_document, retry_run, handle}
use vkit_orbit.Api.Envelope.{status_of}
use vkit_orbit.Api.Refusals.{handle_unauthorized}
use vkit_orbit.Api.Authorized.{IsAllowed, handle-IsAllowed, read_own_document}
use vkit_orbit.Scenarios.Access.{with_key}
use vkit_orbit.Scenarios.Hosts as Hosts
use vkit_orbit.Scenarios.Hosts.{host}

abbrev environment : Environment
environment = record {
  host = host;
  now = 500;
  uuid = "log_1";
  made = ("2", "log_2");
  has_storage = true;
  head = λ key. ok (some 5);
  source_key = λ w d a. ok w;
  upload_url = λ scope reply input. ok "url";
  run_json = λ r. str r.id;
  upload_json = λ input. obj end;
  created_json = λ made. obj end;
}

abbrev bare : Request
bare = record { api_key = none; authorization = none; idempotency_key = none }

abbrev with_bearer : Request
with_bearer = record bare { authorization = some "bearer  dph_1" }

runs_credential : credential with_bearer ≡ some "dph_1"
unfolding credential
runs_credential = refl

abbrev answer : Outcome Body
answer = (handle environment with_bearer (read_document "doc_1") with_key).0

read_returns : answer ≡ returned (document (Hosts.document "doc_1"))
unfolding handle with_scope credential authenticated_principal authenticate_api_key
    require_api_scope get_document authorize commands_run client
read_returns = refl

runs_missing :
    status_of true (handle environment with_bearer (read_document "doc_9") with_key).0 ≡ 404
unfolding status_of handle with_scope credential authenticated_principal authenticate_api_key
    require_api_scope get_document authorize commands_run client
runs_missing = refl

-- A run that does not exist is the server's fault: the command throws a plain error.
runs_retry_missing :
    status_of true (handle environment with_bearer (retry_run "run_9") with_key).0 ≡ 500
unfolding status_of handle with_scope credential authenticated_principal authenticate_api_key
    require_api_scope retry_processing_run commands_run client
runs_retry_missing = refl

not_authenticated : authenticated_principal host 500 bare with_key ≡ (ok none, with_key)
unfolding authenticated_principal credential
not_authenticated = refl

handle_unauthorized_example :
    ((handle environment bare (retry_run "run_1") with_key).1 ≡ with_key)
    × (status_of true (handle environment bare (retry_run "run_1") with_key).0 ≡ 401)
handle_unauthorized_example =
    handle_unauthorized environment bare (retry_run "run_1") true with_key with_key
      not_authenticated

handle-IsAllowed_example : IsAllowed environment with_bearer "documents:read" with_key
handle-IsAllowed_example =
    handle-IsAllowed environment with_bearer (read_document "doc_1") with_key
      (document (Hosts.document "doc_1")) read_returns

read_own_document_example :
    (allowed : IsAllowed environment with_bearer "documents:read" with_key) × ("ws_a"
      ≡ allowed.key.workspace_id)
    × ((Hosts.document "doc_1").id ≡ "doc_1")
read_own_document_example =
    read_own_document environment with_bearer "doc_1" with_key (Hosts.document "doc_1") read_returns
