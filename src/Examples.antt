-- ===== src/Examples.antt =====
-- A small instance of the program, and the theorems at it.
pub mod Fixtures
pub mod Signing
pub mod Requests
pub mod Rules
pub mod Workflow
pub mod Sessions
pub mod Chats
pub mod Jobs
pub mod Builtins
pub mod Server
pub mod Tables
pub mod Login
pub mod Written
pub mod Throttled
pub mod Tests
