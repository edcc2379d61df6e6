-- ===== src/Generate.antt =====
-- `gpt2_generate` (app/gpt2_generate.cpp): its command line, greedy selection, the two
-- generation loops and their agreement.
pub mod Options
pub mod Greedy
pub mod Loops
pub mod Continuation
pub mod Agreement
pub mod Main
