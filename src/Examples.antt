-- ===== src/Examples.antt =====
-- Runs of the model at concrete inputs, and the theorems applied to them.
mod Client
mod Protocol
mod Gateway
mod Service
mod Openai
mod Http
mod Tokenizer
mod Config
mod Encode
mod Collect
mod Drain
