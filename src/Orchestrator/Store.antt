-- ===== src/Orchestrator/Store.antt =====
-- The store of the orchestrator: `InMemoryRepository` of services/orchestrator/src/repository.ts.
-- A method that changes the store returns the new one; random ids and the clock, in milliseconds, are
-- arguments. What the store only passes on (a node's readings, resource limits) is its JSON text.
pub mod Rows
pub mod Accounts
pub mod Links
pub mod Teams
pub mod Nodes
pub mod Servers
pub mod PortTable
pub mod Extras
pub mod Deliveries
pub mod Shares
