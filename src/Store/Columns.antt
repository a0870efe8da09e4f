-- ===== src/Store/Columns.antt =====
-- The columns of a row of `messages`: what the INSERT of message_repository.go writes, and what
-- scanMessage reads.
use go_agent_api.Base.{
  ℕ, ◌*◌, ◌/◌, ◌%◌, ◌^◌, ◌<◌, String, Bool, ◌&&◌, ltb, Option, none, some, List, [], ◌∷◌, ◌≡◌, refl,
  arith, str_eq, if◌then◌else◌,
}
use go_agent_api.Entity.Message.{
  Message, MessageRole, system, user, assistant, tool, ToolCall, role_text,
}
use go_agent_api.Store.Messages.{row_of}

pub record MessageColumns : Type 0 where
  pub id : ℕ
  pub conversation_id : ℕ
  pub role : String
  pub content : String
  pub name : String
  -- JSONB, and NULL
  pub tool_calls : Option String
  pub tool_call_id : String
  pub model : String
  pub prompt_tokens : ℕ
  pub completion_tokens : ℕ
  pub latency_ms : Option ℕ
  pub is_streaming : Bool
  pub stream_complete : Bool
  pub sequence_number : ℕ
  pub created_at : ℕ

-- entity.MessageRole(role), of the texts that the column's CHECK admits
abbrev role_of : String → Option MessageRole
role_of t =
    if str_eq t "system"
    then some system
    else if str_eq t "user"
    then some user
    else if str_eq t "assistant"
    then some assistant
    else if str_eq t "tool"
    then some tool
    else none

-- `marshal` and `unmarshal` are json.Marshal and json.Unmarshal of tool calls.
module _ (marshal : List ToolCall → String) (unmarshal : String → List ToolCall) where
  abbrev calls_column : List ToolCall → Option String
  calls_column [] = none
  calls_column (call ∷ rest) = some (marshal (call ∷ rest))

  -- a time.Duration above 0, as a word with a sign
  abbrev latency_column : ℕ → Option ℕ
  latency_column latency =
      if ltb 0 latency && ltb latency (2 ^ 63) then some (latency / 1000000) else none

  -- the INSERT of Create, with the number that the column SERIAL gives
  pub inserted_message : ℕ → Message → MessageColumns
  unfolding role_text
  inserted_message sequence m = record {
    id = m.id;
    conversation_id = m.conversation_id;
    role = role_text m.role;
    content = m.content;
    name = m.name;
    tool_calls = calls_column m.tool_calls;
    tool_call_id = m.tool_call_id;
    model = m.model;
    prompt_tokens = m.prompt_tokens;
    completion_tokens = m.completion_tokens;
    latency_ms = latency_column m.latency;
    is_streaming = m.is_streaming;
    stream_complete = m.stream_complete;
    sequence_number = sequence;
    created_at = m.created_at;
  }

  abbrev calls_of : Option String → List ToolCall
  calls_of none = []
  calls_of (some json) = unmarshal json

  abbrev latency_of : Option ℕ → ℕ
  latency_of none = 0
  latency_of (some ms) = ms * 1000000 % 2 ^ 64

  abbrev with_role : MessageColumns → Option MessageRole → Option Message
  with_role c none = none
  with_role c (some role) = some (record {
    id = c.id;
    conversation_id = c.conversation_id;
    role = role;
    content = c.content;
    name = c.name;
    tool_calls = calls_of c.tool_calls;
    tool_call_id = c.tool_call_id;
    model = c.model;
    prompt_tokens = c.prompt_tokens;
    completion_tokens = c.completion_tokens;
    latency = latency_of c.latency_ms;
    is_streaming = c.is_streaming;
    stream_complete = c.stream_complete;
    sequence_number = c.sequence_number;
    created_at = c.created_at;
  })

  pub scan_message : MessageColumns → Option Message
  scan_message c = with_role c (role_of c.role)

role_of-role_text : (r : MessageRole) → role_of (role_text r) ≡ some r
unfolding role_text
role_of-role_text system = refl
role_of-role_text user = refl
role_of-role_text assistant = refl
role_of-role_text tool = refl

module _ (marshal : List ToolCall → String) (unmarshal : String → List ToolCall) where
  calls_of-calls_column :
      (calls : List ToolCall)
      → unmarshal (marshal calls) ≡ calls
      → calls_of marshal unmarshal (calls_column marshal unmarshal calls) ≡ calls
  calls_of-calls_column [] h = refl
  calls_of-calls_column (call ∷ rest) h = h

  latency_of-latency_column :
      (latency : ℕ)
      → latency < 2 ^ 63
      → latency_of marshal unmarshal (latency_column marshal unmarshal latency)
        ≡ latency / 1000000 * 1000000
  latency_of-latency_column latency h = ground (arith, h)

  -- scanMessage reads of the row that the INSERT of a message wrote the message with the row's
  -- number and its latency in whole milliseconds, where the latency is not negative and
  -- encoding/json reads back the tool calls that it wrote.
  pub scan_message-inserted_message :
      (sequence : ℕ) (m : Message)
      → unmarshal (marshal m.tool_calls) ≡ m.tool_calls
      → m.latency < 2 ^ 63
      → scan_message marshal unmarshal (inserted_message marshal unmarshal sequence m)
        ≡ some (row_of sequence m)
  unfolding scan_message inserted_message
  scan_message-inserted_message sequence m h bound =
      rw
        (
          role_of-role_text m.role,
          calls_of-calls_column m.tool_calls h,
          latency_of-latency_column m.latency bound,
        )
        refl
