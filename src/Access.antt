-- ===== src/Access.antt =====
-- packages/application/src/auth and packages/application/src/api-keys: who may do what, and how a
-- caller proves who it is; packages/query/src/index.ts: what a member may read.
pub mod Permissions
pub mod ApiKeys
pub mod Sessions
pub mod Queries
pub mod Granted
pub mod Revoked
pub mod Ended
pub mod Reads
