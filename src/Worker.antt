-- ===== src/Worker.antt =====
-- apps/worker: the handlers of the jobs and the relay of the outbox.
pub mod Handlers
pub mod Attempts
