-- ===== src/Scenarios/Access.antt =====
-- A member with an API key, and what it may do and read.
use vkit_orbit.Base.{String, true, false, ◌≡◌, refl, ap, none, some, List, [], ◌∷◌, Memᴰ}
use vkit_orbit.Json.{str, arr, nil, cons}
use vkit_orbit.Store.Schema.{Database, ApiKey, WorkspaceMember, member, queued}
use vkit_orbit.Store.Client.{ok, err, unauthorized}
use vkit_orbit.Store.Command.{run as commands_run}
use vkit_orbit.Store.Reference.{client}
use vkit_orbit.Access.Permissions.{has_permission, is_member, require_api_scope}
use vkit_orbit.Access.ApiKeys.{has_secret, is_dead, revoked, authenticate_api_key, revoke_api_key}
use vkit_orbit.Access.Queries.{authorize, get_document, get_processing_run}
use vkit_orbit.Access.Sessions.{starts_with, authenticate_session, revoke_session}
use vkit_orbit.Access.Ended.{revoke_session-authenticate}
use vkit_orbit.Access.Granted.{api_key_allows, principal_of}
use vkit_orbit.Access.Revoked.{hash_of, revoke_api_key-authenticate}
use vkit_orbit.Access.Reads.{IsReader, get_document-IsReader, get_processing_run-IsReader}
use vkit_orbit.Scenarios.Hosts.{host, scope, document, run, with_runs}

-- A key whose stored scopes ask for everything.
abbrev key : ApiKey
key = record {
  id = "key_1";
  workspace_id = "ws_a";
  user_id = "usr_a";
  name = "ci";
  secret_hash = "digest of dph_1";
  scopes = arr (cons (str "*") nil);
  expires_at = some 1000;
  revoked_at = none;
  last_used_at = none;
}

abbrev user : WorkspaceMember
user = record { workspace_id = "ws_a"; user_id = "usr_a"; role = member }

abbrev pub with_key : Database
with_key = record (with_runs (run queued none ∷ [])) { members = user ∷ []; api_keys = key ∷ [] }

abbrev member_scopes : List String
member_scopes =
    "workspace:read" ∷ "documents:read" ∷ "documents:write" ∷ "documents:process"
    ∷ "documents:cancel" ∷ []

authenticated : (authenticate_api_key host 500 "dph_1" with_key).0 ≡ ok (key, member_scopes)
unfolding authenticate_api_key commands_run client
authenticated = refl

may_write : require_api_scope (some (principal_of key member_scopes)) "documents:write" ≡ none
unfolding require_api_scope
may_write = refl

api_key_allows_example :
    Memᴰ key (key ∷ [])
    × (has_secret host "dph_1" key ≡ true)
    × (is_dead 500 key ≡ false)
    × (w : WorkspaceMember) × Memᴰ w (user ∷ [])
    × (is_member key.workspace_id key.user_id w ≡ true)
    × (has_permission w.role "documents:write" ≡ true)
api_key_allows_example =
    api_key_allows host 500 "dph_1" "documents:write" with_key
      (authenticate_api_key host 500 "dph_1" with_key).1 key member_scopes
      (ap (λ r. (r, (authenticate_api_key host 500 "dph_1" with_key).1)) authenticated) may_write

only_key : (a b : ApiKey) → Memᴰ a (key ∷ []) → Memᴰ b (key ∷ []) → hash_of a ≡ hash_of b → a ≡ b
only_key a b (Memᴰ.head p) (Memᴰ.head q) e = cc
only_key a b (Memᴰ.head p) (Memᴰ.tail m) e = elim m [ ]
only_key a b (Memᴰ.tail m) n e = elim m [ ]

key_revoked : (revoke_api_key client 600 "key_1" with_key).0 ≡ ok (revoked 600 key)
unfolding revoke_api_key commands_run client
key_revoked = refl

revoke_api_key-authenticate_example :
    authenticate_api_key host 700 "dph_1" (revoke_api_key client 600 "key_1" with_key).1
    ≡ (err (unauthorized "invalid API key"), (revoke_api_key client 600 "key_1" with_key).1)
revoke_api_key-authenticate_example =
    revoke_api_key-authenticate host 600 700 "dph_1" with_key
      (revoke_api_key client 600 "key_1" with_key).1 key (revoked 600 key) only_key (Memᴰ.head refl)
      refl (ap (λ r. (r, (revoke_api_key client 600 "key_1" with_key).1)) key_revoked)

document_read : get_document host scope "doc_1" with_key ≡ (ok (some (document "doc_1")), with_key)
unfolding get_document authorize commands_run client
document_read = refl

get_document-IsReader_example :
    IsReader scope "documents:read" with_key
    × (with_key ≡ with_key)
    × Memᴰ (document "doc_1") (document "doc_1" ∷ [])
    × ((document "doc_1").workspace_id ≡ scope.workspace_id)
    × ((document "doc_1").id ≡ "doc_1")
get_document-IsReader_example =
    get_document-IsReader host scope "doc_1" with_key with_key (document "doc_1") document_read

run_read : get_processing_run host scope "run_1" with_key ≡ (ok (some (run queued none)), with_key)
unfolding get_processing_run authorize commands_run client
run_read = refl

get_processing_run-IsReader_example :
    IsReader scope "documents:read" with_key
    × (with_key ≡ with_key)
    × Memᴰ (run queued none) (run queued none ∷ [])
    × ((run queued none).workspace_id ≡ scope.workspace_id)
    × ((run queued none).id ≡ "run_1")
get_processing_run-IsReader_example =
    get_processing_run-IsReader host scope "run_1" with_key with_key (run queued none) run_read

abbrev with_session : Database
with_session = record (with_runs []) {
  sessions =
      record {
        id = "sesid_1";
        user_id = "usr_a";
        token_hash = "digest of ses_1";
        expires_at = 1000;
        revoked_at = none;
        user_agent = none;
        ip_address = none;
      }
      ∷ [];
}

abbrev address : String → String
address id = "a@example.org"

signed_in :
    (authenticate_session host address 500 "ses_1" with_session).0
    ≡ ok (record { user_id = "usr_a"; session_id = "sesid_1"; email = "a@example.org" })
unfolding authenticate_session starts_with commands_run client
signed_in = refl

revoke_session-authenticate_example :
    authenticate_session host address 700 "ses_1" (revoke_session host 600 "ses_1" with_session).1
    ≡ (err (unauthorized "invalid session"), (revoke_session host 600 "ses_1" with_session).1)
revoke_session-authenticate_example =
    revoke_session-authenticate host address 600 700 "ses_1" with_session
