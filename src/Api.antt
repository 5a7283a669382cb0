-- ===== src/Api.antt =====
-- apps/api/src: who sends a request, the handlers of version 1, and the envelope of their errors.
pub mod Requests
pub mod Handlers
pub mod Envelope
pub mod Routes
pub mod Refusals
pub mod Authorized
