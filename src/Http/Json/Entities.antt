-- ===== src/Http/Json/Entities.antt =====
-- The entities of internal/domain/entity as JSON: their fields but those of a tool call have no
-- tags.
use go_agent_api.Base.{ℕ, String, Option, none, some, List, [], ◌∷◌, map}
use go_agent_api.Entity.Any.{Any, Object, null, boolean, number, text, array, object}
use go_agent_api.Entity.User.{User, UserRole, admin, user, agent}
use go_agent_api.Entity.Conversation.{Conversation}
use go_agent_api.Entity.Message.{Message, role_text, tool_call_value}
use go_agent_api.Access.{status_text}
use go_agent_api.Http.Json.{Encoder, encode_any, struct, members, items}

abbrev user_role_text : UserRole → String
user_role_text admin = "admin"
user_role_text user = "user"
user_role_text agent = "agent"

module _ (enc : Encoder) where
  abbrev encoded_entries : Object → Object
  encoded_entries = map λ (name, v). (name, encode_any enc v)

  -- a map, by the name of the field that holds it
  abbrev encode_map : String → Object → Any
  encode_map name [] = enc.blank name
  encode_map name (entry ∷ rest) = object (members (encoded_entries (entry ∷ rest)))

  -- a slice, by the name of the field that holds it
  abbrev pub encode_slice : String → List Any → Any
  encode_slice name [] = enc.blank name
  encode_slice name (v ∷ rest) = array (items (v ∷ rest))

  abbrev encode_time : Option ℕ → Any
  encode_time none = null
  encode_time (some t) = text (enc.time t)

  unfoldable pub encode_user : User → Any
  unfolding encode_any
  encode_user u = struct (
      ("ID", text (enc.uuid u.id))
      ∷ ("Email", text u.email)
      ∷ ("PasswordHash", text u.password_hash)
      ∷ ("Name", text u.name)
      ∷ ("Role", text (user_role_text u.role))
      ∷ ("IsActive", boolean u.is_active)
      ∷ ("Metadata", encode_map "Metadata" u.metadata)
      ∷ ("CreatedAt", text (enc.time u.created_at))
      ∷ ("UpdatedAt", text (enc.time u.updated_at))
      ∷ [])

  unfoldable pub encode_message : Message → Any
  unfolding role_text tool_call_value
  encode_message m = struct (
      ("ID", text (enc.uuid m.id))
      ∷ ("ConversationID", text (enc.uuid m.conversation_id))
      ∷ ("Role", text (role_text m.role))
      ∷ ("Content", text m.content)
      ∷ ("Name", text m.name)
      ∷ ("ToolCalls", encode_slice "ToolCalls" (map tool_call_value m.tool_calls))
      ∷ ("ToolCallID", text m.tool_call_id)
      ∷ ("Model", text m.model)
      ∷ ("PromptTokens", number (enc.int m.prompt_tokens))
      ∷ ("CompletionTokens", number (enc.int m.completion_tokens))
      ∷ ("Latency", number (enc.int m.latency))
      ∷ ("IsStreaming", boolean m.is_streaming)
      ∷ ("StreamComplete", boolean m.stream_complete)
      ∷ ("SequenceNumber", number (enc.int m.sequence_number))
      ∷ ("CreatedAt", text (enc.time m.created_at))
      ∷ [])

  unfoldable pub encode_conversation : Conversation → Any
  unfolding encode_any status_text
  encode_conversation c = struct (
      ("ID", text (enc.uuid c.id))
      ∷ ("UserID", text (enc.uuid c.user_id))
      ∷ ("Title", text c.title)
      ∷ ("Status", text (status_text c.status))
      ∷ ("AgentType", text c.agent_type)
      ∷ ("SystemPrompt", text c.system_prompt)
      ∷ ("Model", text c.model)
      ∷ ("Temperature", number c.temperature)
      ∷ ("CurrentNode", text c.current_node)
      ∷ ("WorkflowState", encode_map "WorkflowState" c.workflow_state)
      ∷ ("MessageCount", number (enc.int c.message_count))
      ∷ ("ToolCallCount", number (enc.int c.tool_call_count))
      ∷ ("TotalTokens", number (enc.int c.total_tokens))
      ∷ ("TotalCost", number c.total_cost)
      ∷ ("Metadata", encode_map "Metadata" c.metadata)
      ∷ ("Tags", encode_slice "Tags" (map text c.tags))
      ∷ ("CreatedAt", text (enc.time c.created_at))
      ∷ ("UpdatedAt", text (enc.time c.updated_at))
      ∷ ("LastMessageAt", encode_time c.last_message_at)
      ∷ ("CompletedAt", encode_time c.completed_at)
      ∷ [])
