-- ===== src/Lib.antt =====
-- A model of the GPT-2 CPU inference runtime: the scalar kernels, the checkpoint's parameter layout,
-- the full-prefix forward pass, the KV cache and the incremental session, the linear executor, and the
-- four programs of app/.
--
-- How the program fits together. `GPT2Model::forward` (src/model.cpp) computes all positions of a
-- prefix, layer by layer, with the kernels of src/kernels.cpp. `InferenceSession` (src/session.cpp)
-- computes one token at a time, keeps the keys and values of earlier tokens in a `KVCache`, and may
-- hand each single-row linear layer to a `LinearExecutor` (src/linear_executor.cpp), which splits
-- the output channels over threads.
--
-- Files and what they model:
--   Prelude         tests on numbers, lists, `std::size_t` with its wrap-around (`wadd`, `wmul`),
--                   exceptions as values (`Result`, `Error`), `reserve`, counted loops (`for_range`)
--   Float           the operations on `float` and `double`, as a parameter of which nothing is
--                   assumed, but where a theorem asks that `<` is an order, or asymmetric
--   Buffer          spans: `require_size`, checked reads and writes, `subspan`
--   Grid, Update,   lemmas on buffers that are written row by row, in a range, or by a copy
--   Splice
--   Reference       one row of each layer of GPT-2, entry by entry
--   Kernels         src/kernels.cpp, a module for each kernel
--   Sizes           `checked_add`, `checked_multiply`, `product` of src/model.cpp and src/session.cpp
--   Model           `ModelConfig`, `ParameterLayout`, `TensorView`, `ModelWeights`,
--                   `InferenceWorkspace` and `GPT2Model::forward` of src/model.cpp
--                   Model/Block is the reference network that `forward` and the session compute
--                   Model/Checkpoint is `load_checkpoint` on the bytes of a file
--   Session         `KVCache` and `InferenceSession` of src/session.cpp
--                   State computes a token, Api has the public operations, Api/Equivalence compares
--                   a session with the full-prefix pass
--   Executor        the partition of `LinearExecutor::run_shard`, a shard's work, and the checks
--                   and the choice of path of `LinearExecutor::linear`, with the shards in order
--                   Executor/Protocol has the threads: a submission, the worker loop and shutdown as
--                   steps in any order. Executor/Protocol/Signals adds the condition variables
--                   `work_ready_` and `work_done_`: the waits that block, and the notifications
--   Text            `std::from_chars`, and the printing of numbers
--   Arguments       `parse_size` and `parse_tokens`, which the programs of app/ share
--   Generate        app/gpt2_generate.cpp: Options is its command line, Greedy the choice of a token,
--                   Loops its two modes, Continuation what they compute, Agreement compares them,
--                   Main is the whole program
--   Exit            how the programs of app/ end
--   Benchmark       app/gpt2_benchmark.cpp: Options is its command line, Samples its measurements,
--                   Machine what it reads of /proc/cpuinfo, Run the sessions and the generations
--                   that it times, Projections the projections behind them, Main the whole program
--   LinearBenchmark app/gpt2_linear_benchmark.cpp: its command line, its five cases, how they are
--                   timed, and the whole program
--   Inspect         app/gpt2_inspect.cpp: its command line and what it prints of a checkpoint
--   Examples        runs at concrete inputs, over numbers in the place of floats
--
-- State is passed explicitly. A buffer is a list of floats; an operation that writes a buffer returns
-- the new one. A C++ exception is `err` with its class and the fixed part of its message. An access
-- outside a span, which C++ leaves undefined, is `err fault`. Sizes and indices are computed modulo
-- 2^64 as the code computes them. Loops are counted, so they need no fuel; the loop of `parse_tokens`
-- has the length of its text as fuel, and each round takes a character at least. The file system is
-- a parameter: it gives the bytes of a file or refuses, and takes what is dumped or refuses it.
--
-- A step of the executor's threads is what one of them does under one lock, or one shard's work: its
-- channels belong to no other thread, and the kernel reads nothing that another thread writes. The
-- session calls the executor as a function, with the shards in order. In Executor/Protocol a wait is
-- a step that its condition enables. In Executor/Protocol/Signals a thread that finds its condition
-- false blocks, and moves on only when another thread has notified, after it has released the lock.
--
-- The clock is a parameter: the time between one reading and the next, in any number type.
--
-- Not modelled: the text of printed lines, of which only the values are part of a result, and what
-- gpt2_benchmark prints of the kernel and the compiler; wake-ups without a reason, the joins of
-- `stop_workers`, threads that cannot be started, and memory that runs out. A `reserve` throws
-- `std::length_error` beyond `max_size()`, taken from the standard library of GCC, and is otherwise
-- taken to succeed. An operation that throws returns no state.
pub mod Prelude
pub mod Float
pub mod Generate
pub mod Inspect
pub mod Benchmark
pub mod LinearBenchmark
pub mod Buffer
pub mod Reference
pub mod Kernels
pub mod Grid
pub mod Update
pub mod Sizes
pub mod Text
pub mod Exit
pub mod Arguments
pub mod Model
pub mod Executor
pub mod Session
pub mod Splice
pub mod Examples
