-- ===== src/Llm.antt =====
-- The language-model side (src/llm_providers/llm_utils.py): the limiter of calls, and the choice of
-- a provider with its key and headers.
pub mod Limiter
pub mod Provider
