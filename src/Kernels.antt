-- ===== src/Kernels.antt =====
-- The scalar kernels of src/kernels.cpp.
pub mod Linear
pub mod LayerNorm
pub mod Pointwise
pub mod Attention
pub mod Stages
