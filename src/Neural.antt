-- ===== src/Neural.antt =====
-- volengine/neural_surface: the replay buffer and the state of a training cycle.
pub mod Training
pub mod Stratification
pub mod Buffer
pub mod Examples
