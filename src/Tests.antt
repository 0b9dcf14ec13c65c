-- ===== src/Tests.antt =====
-- The development on concrete tables: small tables of each kind, and the theorems at them.
mod Samples
mod Nodes
mod Queue
mod Starts
mod Ends
mod Params
mod Scripts
mod Schedules
mod Metrics
mod Processes
mod Accounts
mod Heartbeats
