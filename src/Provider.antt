-- ===== src/Provider.antt =====
-- The clients of the model providers: backend/internal/llm/openai_compat.go and anthropic_provider.go. What
-- a server answers is an argument: one answer for each attempt of a call, and the lines of a stream.
pub mod Retry
pub mod Json
pub mod OpenAi
pub mod Anthropic
pub mod Attempts
pub mod Calls
pub mod Streams
pub mod Lost
mod Tests
