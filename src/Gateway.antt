-- ===== src/Gateway.antt =====
-- gateway/python/kim_llm_gateway/runtime.py, part by part.
pub mod Metrics
pub mod Buffer
pub mod Ids
pub mod Decoder
pub mod Error
pub mod Floats
pub mod Openai
pub mod Http
pub mod Session
pub mod Service
pub mod Config
pub mod Tokenizer
