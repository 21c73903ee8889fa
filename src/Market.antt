-- ===== src/Market.antt =====
-- volengine/market_data: ingestion, the live option chain and the snapshotting cycle.
pub mod SnapshotPolicy
pub mod Examples
pub mod Quotes
pub mod Conventions
pub mod Forward
pub mod Admissibility
pub mod QuoteChain
pub mod ChainSnapshot
pub mod Acl
pub mod BuildSnapshot
pub mod IngestStream
pub mod Recorder
pub mod Recorded
pub mod RecordingExamples
pub mod CycleExamples
