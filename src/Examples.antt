-- ===== src/Examples.antt =====
-- Concrete runs of the model, over a small type of numbers.
pub mod Numbers
pub mod Kernels
pub mod Executor
pub mod Generate
pub mod Benchmark
pub mod Report
pub mod Programs
pub mod Protocol
pub mod Arguments
pub mod Checkpoint
pub mod Sizes
pub mod Cache
pub mod Session
