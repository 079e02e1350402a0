-- ===== src/Store.antt =====
-- The persistence layer of Runtime (runtime/internal/store), as its in-process implementation
-- MemStore: one record of tables, and one function for each method. A method holds the store's
-- mutex from its first line to its last, so it is one step of the model.
pub mod State
pub mod Outbox
pub mod Devices
pub mod Leases
pub mod Tasks
pub mod Artifacts
pub mod Runs
