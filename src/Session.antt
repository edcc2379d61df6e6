-- ===== src/Session.antt =====
-- The KV cache and the inference session (src/session.cpp, include/gpt2/session.hpp).
pub mod Cache
pub mod State
pub mod Api
