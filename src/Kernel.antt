-- ===== src/Kernel.antt =====
-- volengine/shared_kernel/domain: the formulas that the contexts share.
pub mod Elementary
pub mod Black76
pub mod Examples
