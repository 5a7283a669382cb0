-- ===== src/Queue.antt =====
-- packages/queue/src: the contracts of the jobs, their ids, and the delay of a retry.
pub mod Contracts
pub mod JobId
pub mod Conforming
