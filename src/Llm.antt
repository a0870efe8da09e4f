-- ===== src/Llm.antt =====
-- internal/infrastructure/llm/litellm/client.go: the client of the model's HTTP interface.
pub mod Stream
pub mod Client
pub mod Endings
