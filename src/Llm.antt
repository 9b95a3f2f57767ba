-- ===== src/Llm.antt =====
-- The gateway to language models, backend/app/services/llm/gateway.py.
pub mod Gateway
pub mod Fallback
