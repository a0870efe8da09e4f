-- ===== src/Entity/Events.antt =====
-- internal/domain/event, and internal/application/port/event_publisher.go. An id and a time are what uuid.New() and time.Now() give.
use go_agent_api.Base.{ℕ, String, Bool}
use go_agent_api.Base.Exec.{Exec}
use go_agent_api.Entity.Message.{MessageRole}

pub record BaseEvent : Type 0 where
  pub id : ℕ
  pub kind : String
  pub timestamp : ℕ

-- newBaseEvent
unfoldable pub new_base_event : ℕ → ℕ → String → BaseEvent
new_base_event id now kind = record { id = id; kind = kind; timestamp = now }

pub record MessageCreated : Type 0 where
  pub base : BaseEvent
  pub conversation_id : ℕ
  pub message_id : ℕ
  pub role : MessageRole
  pub has_tool_calls : Bool

-- NewMessageCreated
unfoldable pub new_message_created : ℕ → ℕ → ℕ → ℕ → MessageRole → Bool → MessageCreated
unfolding new_base_event
new_message_created id now conversation_id message_id role has_tool_calls = record {
  base = new_base_event id now "message.created";
  conversation_id = conversation_id;
  message_id = message_id;
  role = role;
  has_tool_calls = has_tool_calls;
}

pub record ConversationCompleted : Type 0 where
  pub base : BaseEvent
  pub conversation_id : ℕ
  pub user_id : ℕ
  pub message_count : ℕ
  pub tool_call_count : ℕ
  pub total_tokens : ℕ
  pub total_cost : ℕ

-- NewConversationCompleted
unfoldable pub new_conversation_completed : ℕ → ℕ → ℕ → ℕ → ℕ → ℕ → ℕ → ℕ → ConversationCompleted
unfolding new_base_event
new_conversation_completed id now conversation_id user_id message_count tool_call_count total_tokens
      total_cost =
    record {
      base = new_base_event id now "conversation.completed";
      conversation_id = conversation_id;
      user_id = user_id;
      message_count = message_count;
      tool_call_count = tool_call_count;
      total_tokens = total_tokens;
      total_cost = total_cost;
    }

pub record ToolExecuted : Type 0 where
  pub base : BaseEvent
  pub conversation_id : ℕ
  pub user_id : ℕ
  pub tool_name : String
  pub tool_call_id : String
  pub success : Bool
  pub duration : ℕ
  pub error_message : String

-- NewToolExecuted
unfoldable pub new_tool_executed :
    ℕ → ℕ → ℕ → ℕ → String → String → Bool → ℕ → String → ToolExecuted
unfolding new_base_event
new_tool_executed id now conversation_id user_id tool_name tool_call_id success duration
      error_message =
    record {
      base = new_base_event id now "tool.executed";
      conversation_id = conversation_id;
      user_id = user_id;
      tool_name = tool_name;
      tool_call_id = tool_call_id;
      success = success;
      duration = duration;
      error_message = error_message;
    }

-- the interface DomainEvent, by the types that implement it
data DomainEvent : Type 0 where
  message_created : MessageCreated → DomainEvent
  conversation_completed : ConversationCompleted → DomainEvent
  tool_executed : ToolExecuted → DomainEvent

abbrev base_of : DomainEvent → BaseEvent
base_of (message_created e) = e.base
base_of (conversation_completed e) = e.base
base_of (tool_executed e) = e.base

-- EventID, EventType and OccurredAt
event_id : DomainEvent → ℕ
event_id e = (base_of e).id

event_type : DomainEvent → String
event_type e = (base_of e).kind

occurred_at : DomainEvent → ℕ
occurred_at e = (base_of e).timestamp

-- the interface EventPublisher
record EventPublisher (S : Type 0) : Type 0 where
  pub publish : DomainEvent → Exec S (Unit {0})
