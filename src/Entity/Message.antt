-- ===== src/Entity/Message.antt =====
-- internal/domain/entity/message.go, and the tool calls and chat messages of pkg/toolspec and
-- internal/application/port/llm_provider.go
use go_agent_api.Base.{ℕ, String, Bool, false, List, [], ◌∷◌, ◌++◌, str_eq, if◌then◌else◌}
use go_agent_api.Entity.Any.{Any, Object, text, array, Items, last, item, object, field, end}

pub data MessageRole : Type 0 where
  system user assistant tool : MessageRole

-- string(role)
unfoldable pub role_text : MessageRole → String
role_text system = "system"
role_text user = "user"
role_text assistant = "assistant"
role_text tool = "tool"

pub record FunctionCall : Type 0 where
  pub name : String
  pub arguments : String

pub record ToolCall : Type 0 where
  pub id : String
  pub kind : String
  pub function : FunctionCall

pub record Message : Type 0 where
  pub id : ℕ
  pub conversation_id : ℕ
  pub role : MessageRole
  pub content : String
  pub name : String
  pub tool_calls : List ToolCall
  pub tool_call_id : String
  pub model : String
  pub prompt_tokens : ℕ
  pub completion_tokens : ℕ
  pub latency : ℕ
  pub is_streaming : Bool
  pub stream_complete : Bool
  pub sequence_number : ℕ
  pub created_at : ℕ

-- The fields that a constructor's literal does not name hold their zero values.
abbrev blank : ℕ → ℕ → ℕ → MessageRole → String → Message
blank id now conversation_id role content = record {
  id = id;
  conversation_id = conversation_id;
  role = role;
  content = content;
  name = "";
  tool_calls = [];
  tool_call_id = "";
  model = "";
  prompt_tokens = 0;
  completion_tokens = 0;
  latency = 0;
  is_streaming = false;
  stream_complete = false;
  sequence_number = 0;
  created_at = now;
}

unfoldable pub new_user_message : ℕ → ℕ → ℕ → String → Message
new_user_message id now conversation_id content = blank id now conversation_id user content

unfoldable pub new_assistant_message : ℕ → ℕ → ℕ → String → List ToolCall → String → Message
new_assistant_message id now conversation_id content tool_calls model =
    record (blank id now conversation_id assistant content) {
      tool_calls = tool_calls;
      model = model;
    }

unfoldable pub new_system_message : ℕ → ℕ → ℕ → String → Message
new_system_message id now conversation_id content = blank id now conversation_id system content

-- `marshal` is json.Marshal as text, empty on its error, which the code drops.
unfoldable pub new_tool_message : (Any → String) → ℕ → ℕ → ℕ → String → String → Any → Message
new_tool_message marshal id now conversation_id tool_call_id name result =
    record (blank id now conversation_id tool (marshal result)) {
      name = name;
      tool_call_id = tool_call_id;
    }

-- A tool call as the value that its JSON tags describe.
unfoldable pub tool_call_value : ToolCall → Any
tool_call_value tc = object (
    field "id" (text tc.id) (
      field "type" (text tc.kind) (
        field "function"
          (object (
            field "name" (text tc.function.name)
              (field "arguments" (text tc.function.arguments) end)))
          end)))

tool_call_items : List ToolCall → Items
tool_call_items [] = last
tool_call_items (tc ∷ rest) = item (tool_call_value tc) (tool_call_items rest)

abbrev tool_calls_entry : List ToolCall → Object
tool_calls_entry [] = []
tool_calls_entry (tc ∷ rest) = ("tool_calls", array (tool_call_items (tc ∷ rest))) ∷ []

abbrev text_entry : String → String → Object
text_entry key value = if str_eq value "" then [] else (key, text value) ∷ []

unfoldable pub to_openai_format : Message → Object
unfolding role_text tool_call_items tool_call_value
to_openai_format m =
    ("role", text (role_text m.role))
    ∷ ("content", text m.content)
    ∷ (tool_calls_entry m.tool_calls
        ++ (text_entry "tool_call_id" m.tool_call_id ++ text_entry "name" m.name))

-- port.ChatMessage
pub record ChatMessage : Type 0 where
  pub role : String
  pub content : String
  pub name : String
  pub tool_calls : List ToolCall
  pub tool_call_id : String
