-- ===== src/LinearBenchmark.antt =====
-- `gpt2_linear_benchmark` (app/gpt2_linear_benchmark.cpp): it times the linear layers of a decode,
-- with the kernel or with an executor.
pub mod Settings
pub mod Cases
pub mod Layers
pub mod Weights
pub mod Reports
pub mod Success
