-- ===== src/Realtime.antt =====
-- packages/realtime/src and apps/realtime/src: tickets, events, and the server that joins sockets to
-- rooms and sends them events.
pub mod Ticket
pub mod Events
pub mod Server
pub mod Signing
pub mod Steps
pub mod Rooms
pub mod Sending
