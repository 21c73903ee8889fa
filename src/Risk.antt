-- ===== src/Risk.antt =====
-- volengine/risk: what a report may say about the age of its surface, the cache that feeds it, and the report.
pub mod Freshness
pub mod SurfaceView
pub mod SurfaceCache
pub mod ComputeReport
pub mod Interpolation
pub mod Valuation
mod Refusals
pub mod Comparison
pub mod Examples
pub mod ReportExamples
pub mod ComparisonExamples
