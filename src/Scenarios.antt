-- ===== src/Scenarios.antt =====
-- The model at concrete inputs: the host, a database, runs of the commands, and the theorems there.
mod Collation
mod Hosts
mod Runs
mod Intents
mod Access
mod Lists
mod Templates
mod Relays
mod Realtime
mod Objects
mod Requests
mod Logs
mod Deliveries
