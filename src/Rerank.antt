-- ===== src/Rerank.antt =====
-- The rerank services of src/daemon: services.h, mock_reranker.cc, reranker_deterministic.cc and
-- reranker_llamacpp.cc.
pub mod Floats
pub mod Contract
pub mod Mock
pub mod Deterministic
pub mod Llama
