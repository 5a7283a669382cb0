-- ===== src/Lib.antt =====
-- A model of vkit-orbit: documents are uploaded to a workspace, submitted for processing, taken through
-- the stages VALIDATING, ANALYZING and FINALIZING by a worker, and announced to webhook endpoints. The
-- commands and stages change a Postgres database through Prisma; a job for the queues is first a row of
-- the outbox, written in the same transaction as the change that asks for it.
--
-- The parts and their files:
--   Store (packages/db/prisma/schema.prisma, and the Prisma client as an interface with laws)
--     Store/Schema: the rows, one record per model, a table as the list of its rows.
--     Store/Client: the client's calls and laws; Store/Reference: a client that satisfies them.
--     Store/Command: commands, which pass the database on and return or throw; the combinators of
--       the source's control flow, and transactions, which drop the writes of a body that throws.
--     Store/Rules, Store/Evolution, Store/Counting, Store/Inversion: what commands built so preserve.
--   Host: what the program calls outside the database: digests, the HMAC, the collation.
--   Json (JSON values), Json/Print (JSON.stringify), Json/Canonical (sortValue, canonicalRequestHash of
--     packages/application/src/idempotency, stableJson of packages/application/src/outbox).
--   Audit (packages/application/src/audit): writeAuditLog.
--   Outbox (packages/application/src/outbox): enqueueIntent, claimOutboxBatch, markOutboxPublished,
--     markOutboxFailed.
--   Idempotency (packages/application/src/idempotency): executeIdempotent.
--   Documents (packages/application/src/documents): cancelProcessingRun, confirmDocumentUpload,
--     createDocumentUpload, retryProcessingRun, submitProcessingRun; Documents/StateMachine: the
--     transition table, assertTransition and assertSupportedUpload.
--   Processing (packages/application/src/processing): claimStage, completeValidation, completeAnalysis,
--     completeFinalization, failStage.
--   Webhooks (packages/application/src/webhooks): signWebhook, prepareWebhookEnvelope, prepareDelivery,
--     classifyWebhookResponse, recordWebhookAttempt.
--   Recovery (packages/application/src/recovery): recoverProcessing, recoverWebhooks, cleanupDocuments.
--   Worker/Handlers (apps/worker/src/handlers): the handlers of the jobs.
--   Lifecycle: the calls of all of these on one database, in any order, and what becomes of the runs;
--     Lifecycle/Single: what one call does to them.
--   Access (packages/application/src/auth, packages/application/src/api-keys, packages/query/src):
--     Access/Permissions: permissions, hasPermission, requirePermission, requireApiScope of
--       apps/api/src/plugins/api-key.ts, changeWorkspaceMembership.
--     Access/ApiKeys: createApiKey, authenticateApiKey, revokeApiKey. Access/Sessions: createSession,
--       authenticateSession, revokeSession. Access/Queries: authorize, getDocument, getProcessingRun,
--       pageInput. Access/Granted, Access/Revoked, Access/Ended and Access/Reads: what they let
--       through.
--   Collection (apps/api/src/collection-query): Collection/Cursor (encodeCursor, decodeCursor,
--     createQueryFingerprint), Collection/Definition and Collection/Query (defineCollection with parse,
--     createCursor and serialize). Base64url, JSON.parse, digests, trim, Number and Date are arguments.
--   Queue (packages/queue/src): Queue/Contracts (jobContracts, the payload schemas, parseJobPayload,
--     retryDelay), Queue/JobId (createJobId); Queue/Conforming: the intents of the application fit them.
--   Relay (apps/worker/src/relay/relay.ts): runOutboxRelay, which claims rows of the outbox and adds
--     their jobs to the queues; Relay/Sent, Relay/Rows, Relay/Claimed, Relay/Delivery, Relay/Marks and
--     Relay/Settlement: what becomes of the rows.
--   Realtime (packages/realtime/src, apps/realtime/src): Realtime/Ticket (signRealtimeTicket,
--     verifyRealtimeTicket, createTicketAuthenticator), Realtime/Events (realtimeEventSchema,
--     roomsForEvent), Realtime/Server (createRealtimeServer and the dependencies of main.ts);
--     Realtime/Signing, Realtime/Steps, Realtime/Rooms and Realtime/Sending: who is let in and sent what.
--   Storage (packages/storage/src): Storage/Keys (identifier, sourceObjectKey, resultObjectKey,
--     normalizePrefix, assertObjectKey), Storage/Client (createStorageClient); Storage/Paths and
--     Storage/Guarded: where keys lie.
--   Api (apps/api/src): Api/Requests (authenticatedPrincipal, and the start of a handler), Api/Handlers
--     (handlers/v1), Api/Envelope (errorEnvelopePlugin); Api/Routes, Api/Refusals and Api/Authorized:
--     who is answered.
--   Config (packages/config/src): Config/Scan (scan, configError), Config/Interpolation
--     (validateTemplates, interpolateSelected); Config/Templates, Config/Validated and Config/Escaping: what a scan gives.
--   Observability (packages/application/src/observability): redact.
--   Scenarios: the model at concrete inputs.
--
-- Every call is atomic: a sequence of calls is an interleaving of whole commands, so a
-- cancellation's read and update are one step. Two relays that have read the same rows are covered
-- loop after loop. Times are numbers of milliseconds and arguments of the calls; a random id is an
-- argument too. An `updateMany` runs on the rows as one step, as Postgres does under a row lock.
-- Recursion is structural, but for the loop of `scan` in Config/Scan, which runs on fuel: one round
-- for each character of the value and one for the end, since every round but the last reads a
-- character or more. Numbers of JSON values are the non-negative integers; sizes, revisions and
-- times in the database are natural numbers.
--
-- The queues (BullMQ), the object storage (the AWS SDK), Socket.IO, base64url, JSON.parse, Date and trim are
-- arguments. The database and the queues of the relay are one state, passed from row to row. The realtime
-- server is a step relation: requests, connections, joins and disconnections in any order.
--
-- Not modelled: the advisory lock of executeIdempotent, beyond making calls under one key sequential; the
-- validation that Elysia does before a handler; the list of documents and of audit entries; the loop of the
-- relay, schedules and shutdown; network I/O; the views and server functions of the web application;
-- generated code, scripts and recipes.
pub mod Base
pub mod Json
pub mod Store
pub mod Host
pub mod Audit
pub mod Outbox
pub mod Idempotency
pub mod Documents
pub mod Webhooks
pub mod Processing
pub mod Recovery
pub mod Worker
pub mod Access
pub mod Collection
pub mod Config
pub mod Queue
pub mod Relay
pub mod Storage
pub mod Realtime
pub mod Api
pub mod Observability
pub mod Lifecycle
pub mod Scenarios
