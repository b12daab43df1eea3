-- ===== src/Client.antt =====
-- clients/python/kim_llm_client/generation_client.py, part by part.
pub mod Buffer
pub mod State
pub mod Dispatch
pub mod Requests
pub mod Fail
pub mod System
pub mod Collect
