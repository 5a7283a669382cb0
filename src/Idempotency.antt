-- ===== src/Idempotency.antt =====
-- packages/application/src/idempotency/execute-idempotent.ts. The advisory lock is taken first in the
-- transaction and held to its end, so calls for one key run one after the other; the model runs them
-- so. A replay hands back the stored JSON, which the source casts to the result's type.
pub mod Replay
use vkit_orbit.Base.{
  ℕ, String, Bool, true, false, ◌&&◌, ◌||◌, not, Option, none, some, ltb, ◌==◌, if◌then◌else◌,
}
use Prim.Native.String as Text
use vkit_orbit.Host.{Host}
use vkit_orbit.Audit.{Scope}
use vkit_orbit.Json.{Json}
use vkit_orbit.Json.Canonical.{canonical_request_hash}
use vkit_orbit.Store.Schema.{IdempotencyRecord}
use vkit_orbit.Store.Client.{Client, message, idempotency_conflict}
use vkit_orbit.Store.Command.{
  Command, ◌>>=◌, ◌>>◌, return, throw, throw_if, branch, idempotency_records, find_first, create,
  transaction,
}

pub data Reply (T : Type 0) : Type 0 where
  fresh : T → Reply T
  replayed : Json → Reply T

abbrev pub request_hash : Host → Json → String
request_hash host request = canonical_request_hash host.before host.sha256 request

abbrev pub is_record : Scope → String → String → IdempotencyRecord → Bool
is_record scope operation key r =
    r.workspace_id == scope.workspace_id && r.operation == operation && r.key == key

-- `!key || key.length > 255`, with the length in characters.
abbrev pub is_bad_key : String → Bool
is_bad_key key = key == "" || ltb 255 (Text.count key)

module _ (host : Host) (uuid : String) (scope : Scope) (operation key : String)
    (request : Json) where
  abbrev pub idempotency_record : Json → IdempotencyRecord
  idempotency_record response = record {
    id = uuid;
    workspace_id = scope.workspace_id;
    principal_id = scope.principal_id;
    operation = operation;
    key = key;
    request_hash = request_hash host request;
    response = response;
  }

  module _ {T : Type 0} (to_json : T → Json) (action : Command T) where
    -- What is done when a record of the key is found, or none.
    unfoldable pub settle : Option IdempotencyRecord → Command (Reply T)
    settle (some raced) =
        branch
          (not (raced.request_hash == request_hash host request)
            || not (raced.principal_id == scope.principal_id))
          (throw idempotency_conflict) (return (replayed raced.response))
    settle none = do
      result ← action
      _stored ←
          create host.client idempotency_records
            (λ r. r.id == uuid || is_record scope operation key r)
            (idempotency_record (to_json result))
      return (fresh result)

    abbrev pub reservation : Command (Reply T)
    reservation = do
      raced ← find_first host.client idempotency_records (is_record scope operation key)
      settle raced

    unfoldable pub execute_idempotent : Command (Reply T)
    execute_idempotent = do
      throw_if (is_bad_key key) (message "invalid idempotency key")
      transaction host.client reservation
