-- ===== src/Queue/Contracts.antt =====
-- packages/queue/src/contracts, index.ts, queues.ts and defaults.ts. A schema is what zod checks; a
-- parsed payload has its keys in the order of the schema.
use vkit_orbit.Base.{
  ℕ, ◌-◌, ◌*◌, ◌^◌, min, String, Bool, ◌&&◌, Option, none, some, List, [], ◌∷◌, all, leb, ltb,
  includes, ◌==◌, if◌then◌else◌,
}
use vkit_orbit.Json.{Json, num, str, obj, Fields, end, field, entries}
use vkit_orbit.Collection.Cursor.{lookup}

pub data QueueName : Type 0 where
  documents webhooks notifications : QueueName

-- `job key` is `z.object({ workspaceId: id, [key]: id, revision: z.number().int().positive() })`, and
-- `maintenance` is `z.object({ limit: z.number().int().min(1).max(1000).default(100) })`; both strict.
pub data Schema : Type 0 where
  job : String → Schema
  maintenance : Schema

pub record JobContract : Type 0 where
  pub name : String
  pub queue : QueueName
  pub schema : Schema

abbrev pub stage_payload : Schema
stage_payload = job "runId"

abbrev pub webhook_payload : Schema
webhook_payload = job "deliveryId"

abbrev pub recovery_payload : Schema
recovery_payload = job "runId"

abbrev pub cleanup_payload : Schema
cleanup_payload = job "documentId"

abbrev pub notification_payload : Schema
notification_payload = job "eventId"

abbrev contract : String → QueueName → Schema → JobContract
contract name queue schema = record { name = name; queue = queue; schema = schema }

abbrev pub document_validate_v1 : JobContract
document_validate_v1 = contract "document.validate.v1" documents stage_payload

abbrev pub document_analyze_v1 : JobContract
document_analyze_v1 = contract "document.analyze.v1" documents stage_payload

abbrev pub document_finalize_v1 : JobContract
document_finalize_v1 = contract "document.finalize.v1" documents stage_payload

abbrev pub webhook_deliver_v1 : JobContract
webhook_deliver_v1 = contract "webhook.deliver.v1" webhooks webhook_payload

abbrev pub document_recover_v1 : JobContract
document_recover_v1 = contract "document.recover.v1" documents recovery_payload

abbrev pub document_cleanup_v1 : JobContract
document_cleanup_v1 = contract "document.cleanup.v1" documents cleanup_payload

abbrev pub notification_publish_v1 : JobContract
notification_publish_v1 = contract "notification.publish.v1" notifications notification_payload

abbrev pub processing_recovery_v1 : JobContract
processing_recovery_v1 = contract "maintenance.processing.v1" documents maintenance

abbrev pub webhook_recovery_v1 : JobContract
webhook_recovery_v1 = contract "maintenance.webhooks.v1" webhooks maintenance

abbrev pub upload_cleanup_v1 : JobContract
upload_cleanup_v1 = contract "maintenance.uploads.v1" documents maintenance

-- The table `jobContracts`: each contract stands under its own name.
abbrev pub job_contracts : List JobContract
job_contracts =
    document_validate_v1 ∷ document_analyze_v1 ∷ document_finalize_v1 ∷ webhook_deliver_v1
    ∷ document_recover_v1 ∷ document_cleanup_v1 ∷ notification_publish_v1 ∷ processing_recovery_v1
    ∷ webhook_recovery_v1 ∷ upload_cleanup_v1 ∷ []

abbrev pub named : String → List JobContract → Option JobContract
named name [] = none
named name (c ∷ cs) = let later = named name cs in if c.name == name then some c else later

-- `z.string().trim().min(1)`
abbrev pub parse_id : (String → String) → Option Json → Option String
parse_id trim (some (str s)) = if trim s == "" then none else some (trim s)
parse_id trim _ = none

-- `z.number().int().positive()`
abbrev pub parse_revision : Option Json → Option ℕ
parse_revision (some (num n)) = if ltb 0 n then some n else none
parse_revision _ = none

abbrev pub parse_limit : Option Json → Option ℕ
parse_limit none = some 100
parse_limit (some (num n)) = if leb 1 n && leb n 1000 then some n else none
parse_limit _ = none

-- `.strict()`: no other key.
abbrev pub is_strict : List String → Fields → Bool
is_strict keys fs = all (λ e. includes keys e.0) (entries fs)

abbrev pub parsed_job : String → Option String → Option String → Option ℕ → Option Json
parsed_job key (some workspace_id) (some id) (some revision) = some (
    obj (
      field "workspaceId" (str workspace_id)
        (field key (str id) (field "revision" (num revision) end))))
parsed_job key _ _ _ = none

abbrev pub parsed_limit : Option ℕ → Option Json
parsed_limit (some limit) = some (obj (field "limit" (num limit) end))
parsed_limit none = none

abbrev pub parse_fields : (String → String) → Schema → Fields → Option Json
parse_fields trim (job key) fs =
    if is_strict ("workspaceId" ∷ key ∷ "revision" ∷ []) fs
    then parsed_job key (parse_id trim (lookup "workspaceId" fs)) (parse_id trim (lookup key fs))
        (parse_revision (lookup "revision" fs))
    else none
parse_fields trim maintenance fs =
    if is_strict ("limit" ∷ []) fs then parsed_limit (parse_limit (lookup "limit" fs)) else none

-- `schema.parse(payload)`, with none where it throws. `trim` is the language's.
unfoldable pub parse_payload : (String → String) → Schema → Json → Option Json
parse_payload trim schema (obj fs) = parse_fields trim schema fs
parse_payload trim schema _ = none

-- `parseJobPayload`
unfoldable pub parse_job_payload : (String → String) → JobContract → Json → Option Json
unfolding parse_payload
parse_job_payload trim c payload = parse_payload trim c.schema payload

-- `retryDelay`: none is the throw. The attempts are integers.
unfoldable pub retry_delay : ℕ → ℕ → ℕ → Option ℕ
retry_delay attempt base cap =
    if ltb attempt 1 then none else some (min cap (base * 2 ^ (attempt - 1)))
