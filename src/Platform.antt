-- ===== src/Platform.antt =====
-- volengine/platform: the in-process event bus, its runners and the metrics port.
pub mod Metrics
pub mod Bus
pub mod Runner
pub mod Examples
