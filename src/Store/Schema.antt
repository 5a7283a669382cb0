-- ===== src/Store/Schema.antt =====
-- packages/db/prisma/schema.prisma, and the unions of statuses that the TypeScript sources name. A
-- table is the list of its rows, a date is its number of milliseconds, and a nullable column is an
-- `Option`. Columns that no modelled operation reads or writes are left out.
use vkit_orbit.Base.{ℕ, String, Bool, Option, List}
use vkit_orbit.Json.{Json}

pub data DocumentStatus : Type 0 where
  uploading ready : DocumentStatus

pub data ProcessingStatus : Type 0 where
  queued validating analyzing finalizing completed failed canceled : ProcessingStatus

pub data OutboxStatus : Type 0 where
  pending claimed published failed : OutboxStatus

pub data DeliveryStatus : Type 0 where
  pending processing succeeded failed : DeliveryStatus

pub data ArtifactKind : Type 0 where
  source result : ArtifactKind

pub data Role : Type 0 where
  owner admin member viewer : Role

pub record Document : Type 0 where
  pub id : String
  pub workspace_id : String
  pub title : String
  pub content_type : String
  pub byte_size : ℕ
  pub status : DocumentStatus

pub record DocumentArtifact : Type 0 where
  pub id : String
  pub workspace_id : String
  pub document_id : String
  pub processing_run_id : Option String
  pub kind : ArtifactKind
  pub object_key : String
  pub content_type : String
  pub byte_size : ℕ
  pub checksum : Option String
  pub created_at : ℕ

pub record ProcessingRun : Type 0 where
  pub id : String
  pub workspace_id : String
  pub document_id : String
  pub revision : ℕ
  pub status : ProcessingStatus
  pub stage_revision : ℕ
  pub lease_expires_at : Option ℕ
  pub error_code : Option String
  pub result : Option Json
  pub created_at : ℕ

pub record QueueOutbox : Type 0 where
  pub id : String
  pub workspace_id : String
  pub contract : String
  pub business_id : String
  pub revision : ℕ
  pub payload : Json
  pub status : OutboxStatus
  pub available_at : ℕ
  pub claimed_at : Option ℕ
  pub published_at : Option ℕ
  pub created_at : ℕ

pub record WebhookEndpoint : Type 0 where
  pub id : String
  pub workspace_id : String
  pub url : String
  pub secret_hash : String
  pub encrypted_secret : Option String
  pub events : Json
  pub active : Bool

pub record WebhookDelivery : Type 0 where
  pub id : String
  pub workspace_id : String
  pub endpoint_id : String
  pub event_id : String
  pub request_body : String
  pub signature_input : String
  pub status : DeliveryStatus
  pub attempts : ℕ
  pub next_attempt_at : ℕ
  pub lease_expires_at : Option ℕ

pub record AuditLog : Type 0 where
  pub id : String
  pub workspace_id : String
  pub principal_id : String
  pub action : String
  pub resource_type : String
  pub resource_id : Option String
  pub metadata : Option Json

pub record IdempotencyRecord : Type 0 where
  pub id : String
  pub workspace_id : String
  pub principal_id : String
  pub operation : String
  pub key : String
  pub request_hash : String
  pub response : Json

pub record WorkspaceMember : Type 0 where
  pub workspace_id : String
  pub user_id : String
  pub role : Role

pub record ApiKey : Type 0 where
  pub id : String
  pub workspace_id : String
  pub user_id : String
  pub name : String
  pub secret_hash : String
  pub scopes : Json
  pub expires_at : Option ℕ
  pub revoked_at : Option ℕ
  pub last_used_at : Option ℕ

pub record Session : Type 0 where
  pub id : String
  pub user_id : String
  pub token_hash : String
  pub expires_at : ℕ
  pub revoked_at : Option ℕ
  pub user_agent : Option String
  pub ip_address : Option String

pub record Database : Type 0 where
  pub documents : List Document
  pub artifacts : List DocumentArtifact
  pub runs : List ProcessingRun
  pub outbox : List QueueOutbox
  pub endpoints : List WebhookEndpoint
  pub deliveries : List WebhookDelivery
  pub audit_logs : List AuditLog
  pub idempotency_records : List IdempotencyRecord
  pub members : List WorkspaceMember
  pub api_keys : List ApiKey
  pub sessions : List Session
