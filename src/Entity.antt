-- ===== src/Entity.antt =====
-- internal/domain/entity: the entities and their methods. A `uuid.UUID` is a number, a time is a
-- number of nanoseconds, and what a method reads from `time.Now()` and `uuid.New()` is an argument.
pub mod Any
pub mod User
pub mod Token
pub mod Conversation
pub mod Message
pub mod ToolExecution
pub mod ValueObjects
pub mod Events
