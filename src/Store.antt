-- ===== src/Store.antt =====
-- internal/infrastructure/persistence/postgres: the tables and the statements of the repositories.
-- A table is the list of its rows in the order of their insertion.
pub mod World
pub mod Links
pub mod Users
pub mod Tokens
pub mod Conversations
pub mod Messages
pub mod Columns
pub mod TokenColumns
pub mod ToolExecutions
pub mod Cache
pub mod Connection
pub mod Rows
pub mod Reads
pub mod Writes
pub mod Refinement
pub mod Unique
