-- ===== src/Chat/Queries.antt =====
-- get_conversation.go and list_conversations.go
use go_agent_api.Base.{ℕ, String, ◌==◌, none, List}
use go_agent_api.Base.Exec.{Exec, wrap_error, pure, require, ◌>>=◌, ◌>>◌}
use go_agent_api.Entity.Conversation.{Conversation}
use go_agent_api.Entity.Message.{Message}
use go_agent_api.Store.World.{World}
use go_agent_api.Store.Conversations
use go_agent_api.Store.Messages

pub record GetConversationOutput : Type 0 where
  pub conversation : Conversation
  pub messages : List Message

unfoldable pub get_conversation : ℕ → ℕ → Exec World GetConversationOutput
get_conversation conv_id user_id = do
  conv ← wrap_error "conversation not found" (Conversations.find_by_id conv_id)
  require (conv.user_id == user_id) "unauthorized access to conversation"
  messages ← wrap_error "get messages" (Messages.find_by_conversation_id conv_id)
  pure (record { conversation = conv; messages = messages })

pub record ListConversationsOutput : Type 0 where
  pub conversations : List Conversation
  pub total : ℕ

-- `ordered column direction` is the database's ORDER BY.
unfoldable pub list_conversations :
    (String → String → List Conversation → List Conversation)
    → ℕ
    → Exec World ListConversationsOutput
list_conversations ordered user_id = do
  conversations ← wrap_error "list conversations" (
      Conversations.find_by_user_id ordered user_id
        (record { status = none; limit = 50; offset = 0; order_by = "updated_at"; order = "DESC" }))
  total ← wrap_error "count conversations" (Conversations.count_by_user_id user_id)
  pure (record { conversations = conversations; total = total })
