-- ===== src/Benchmark.antt =====
-- `gpt2_benchmark` (app/gpt2_benchmark.cpp): its command line, its samples and what it runs.
pub mod Options
pub mod Samples
pub mod Inputs
pub mod Machine
pub mod Run
pub mod Projections
pub mod Checks
pub mod Generations
pub mod Prepared
pub mod Agreement
pub mod Full
pub mod Main
