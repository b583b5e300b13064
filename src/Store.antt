-- ===== src/Store.antt =====
-- crates/rgit-store: the in-memory store.
pub mod Model
pub mod Values
pub mod Memory
pub mod Closure
pub mod Publish
pub mod Staging
pub mod Contract
mod Runs
pub mod History
