-- ===== src/Lifecycle.antt =====
-- The life of a processing run as the state machine of
-- packages/application/src/documents/state-machine.ts allows it, as a preorder on databases, and the
-- proofs that the commands, the stages, the recovery and the handlers keep to it.
pub mod Order
pub mod Commands
pub mod Stages
pub mod Workers
pub mod System
pub mod Single
