-- ===== src/Pricing.antt =====
-- volengine/parametric_pricing: the state of a calibration cycle, its values, and the cycle.
pub mod State
pub mod Calibration
pub mod Acl
pub mod Publication
pub mod CalibrateOnSnapshot
pub mod Examples
pub mod HandleExamples
pub mod Black76
