-- ===== src/Http.antt =====
-- internal/infrastructure/http, internal/pkg/response, internal/application/dto/request and the
-- routes of cmd/api/main.go.
pub mod Streaming
pub mod Request
pub mod Response
pub mod App
pub mod Handlers
pub mod Completions
pub mod Tools
pub mod Middleware
pub mod Server
pub mod Guarded
pub mod EmptyCompletion
pub mod Batch
pub mod Main
pub mod Lifecycle
pub mod Routing
pub mod Session
pub mod RequestId
pub mod Json
pub mod Documented
pub mod Yields
pub mod Writer
pub mod Logging
pub mod Throttling
pub mod Typed
pub mod Exposure
pub mod Answers
