-- ===== src/Chat.antt =====
-- internal/application/usecase/chat: the use cases of conversations. What they read from time.Now()
-- and uuid.New() is an argument.
pub mod Ports
pub mod SendMessage
pub mod ApproveAction
pub mod Queries
pub mod Pausing
pub mod LostState
pub mod Ownership
pub mod Listing
pub mod Storing
