-- ===== src/Contracts.antt =====
-- volengine/contracts: the published language between the contexts.
pub mod Surface
pub mod Wire
pub mod Snapshot
pub mod Events
pub mod Examples
