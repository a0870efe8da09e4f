-- ===== src/Entity/Conversation.antt =====
-- internal/domain/entity/conversation.go
use go_agent_api.Base.{
  ℕ, String, Bool, true, false, not, ◌&&◌, Option, none, some, List, [], str_eq, if◌then◌else◌,
}
use go_agent_api.Base.Words.{add64, float_0_7}
use go_agent_api.Base.Table.{insert, delete}
use go_agent_api.Entity.Any.{Any, Object, object, text, instant, field, end}

pub data ConversationStatus : Type 0 where
  active pending completed failed archived : ConversationStatus

pub record Conversation : Type 0 where
  pub id : ℕ
  pub user_id : ℕ
  pub title : String
  pub status : ConversationStatus
  pub agent_type : String
  pub system_prompt : String
  pub model : String
  pub temperature : ℕ
  pub current_node : String
  pub workflow_state : Object
  pub message_count : ℕ
  pub tool_call_count : ℕ
  pub total_tokens : ℕ
  pub total_cost : ℕ
  pub metadata : Object
  pub tags : List String
  pub created_at : ℕ
  pub updated_at : ℕ
  pub last_message_at : Option ℕ
  pub completed_at : Option ℕ

-- NewConversation
unfoldable pub new_conversation : ℕ → ℕ → ℕ → String → Conversation
new_conversation id now user_id agent_type = record {
  id = id;
  user_id = user_id;
  title = "";
  status = active;
  agent_type = agent_type;
  system_prompt = "";
  model = "";
  temperature = float_0_7;
  current_node = "";
  workflow_state = [];
  message_count = 0;
  tool_call_count = 0;
  total_tokens = 0;
  total_cost = 0;
  metadata = [];
  tags = [];
  created_at = now;
  updated_at = now;
  last_message_at = none;
  completed_at = none;
}

abbrev pub is_active_status : ConversationStatus → Bool
is_active_status active = true
is_active_status _ = false

abbrev pub is_pending_status : ConversationStatus → Bool
is_pending_status pending = true
is_pending_status _ = false

unfoldable pub is_active : Conversation → Bool
is_active c = is_active_status c.status

unfoldable pub is_pending_approval : Conversation → Bool
is_pending_approval c = is_pending_status c.status

unfoldable pub request_approval : ℕ → String → Any → Conversation → Conversation
request_approval now node detail c = record c {
  status = pending;
  current_node = node;
  metadata = insert "pending_approval" detail c.metadata;
  updated_at = now;
}

unfoldable pub approve : ℕ → Conversation → Conversation
approve now c = record c {
  status = active;
  metadata = delete "pending_approval" c.metadata;
  updated_at = now;
}

unfoldable pub reject : ℕ → String → Conversation → Conversation
reject now reason c = record c {
  status = active;
  metadata =
      insert "last_rejection" (object (field "reason" (text reason) (field "at" (instant now) end)))
        c.metadata;
  updated_at = now;
}

unfoldable pub complete : ℕ → Conversation → Conversation
complete now c = record c { status = completed; completed_at = some now; updated_at = now }

unfoldable pub add_message_stats : ℕ → ℕ → ℕ → Conversation → Conversation
add_message_stats now tokens tool_calls c = record c {
  message_count = add64 c.message_count 1;
  total_tokens = add64 c.total_tokens tokens;
  tool_call_count = add64 c.tool_call_count tool_calls;
  last_message_at = some now;
  updated_at = now;
}

unfoldable pub set_title : ℕ → String → Conversation → Conversation
set_title now title c =
    if str_eq c.title "" && not (str_eq title "")
    then record c { title = title; updated_at = now }
    else c
