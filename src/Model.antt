-- ===== src/Model.antt =====
-- The model: configuration, parameter layout, weights and the full-prefix forward pass
-- (src/model.cpp, include/gpt2/model.hpp).
pub mod Config
pub mod Layout
pub mod Tensor
pub mod Workspace
pub mod Block
pub mod Forward
pub mod Checkpoint
