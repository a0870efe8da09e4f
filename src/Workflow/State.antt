-- ===== src/Workflow/State.antt =====
-- internal/infrastructure/eino/state/agent_state.go. An `int` or `float64` is its bit pattern.
use go_agent_api.Base.{ℕ, String, Bool, false, Option, none, List, [], ◌∷◌, ◌++◌}
use go_agent_api.Base.Words.{float_0_7}
use go_agent_api.Entity.Any.{Any, Object}
use go_agent_api.Entity.Message.{ToolCall, ChatMessage}
use go_agent_api.Tools.Spec.{ToolSpec}

pub record AgentState : Type 0 where
  pub conversation_id : ℕ
  pub user_id : ℕ
  pub request_id : String
  pub messages : List ChatMessage
  pub system_prompt : String
  pub user_input : String
  pub current_output : String
  pub model : String
  pub temperature : ℕ
  pub max_tokens : ℕ
  pub available_tools : List ToolSpec
  pub pending_tools : List ToolCall
  pub tool_results : List ChatMessage
  pub current_agent : String
  pub next_agent : String
  pub agent_history : List String
  pub requires_approval : Bool
  pub approval_reason : String
  pub approval_data : Object
  pub is_approved : Option Bool
  pub iteration : ℕ
  pub max_iterations : ℕ
  pub should_stop : Bool
  pub error : String
  pub start_time : ℕ
  pub tokens_used : ℕ
  pub tool_calls_count : ℕ

-- `request_id` is what uuid.New() gives, `now` what time.Now() gives.
unfoldable pub new_agent_state : String → ℕ → ℕ → ℕ → String → AgentState
new_agent_state request_id now conv_id user_id input = record {
  conversation_id = conv_id;
  user_id = user_id;
  request_id = request_id;
  messages = [];
  system_prompt = "";
  user_input = input;
  current_output = "";
  model = "gpt-4o-mini";
  temperature = float_0_7;
  max_tokens = 4096;
  available_tools = [];
  pending_tools = [];
  tool_results = [];
  current_agent = "";
  next_agent = "";
  agent_history = [];
  requires_approval = false;
  approval_reason = "";
  approval_data = [];
  is_approved = none;
  iteration = 0;
  max_iterations = 10;
  should_stop = false;
  error = "";
  start_time = now;
  tokens_used = 0;
  tool_calls_count = 0;
}

-- A chat message with a role and a content; its other fields hold their zero values.
abbrev pub plain_message : String → String → ChatMessage
plain_message role content = record {
  role = role;
  content = content;
  name = "";
  tool_calls = [];
  tool_call_id = "";
}

unfoldable pub add_message : ChatMessage → AgentState → AgentState
add_message msg s = record s { messages = s.messages ++ msg ∷ [] }

unfoldable pub add_user_message : String → AgentState → AgentState
add_user_message content s = record s { messages = s.messages ++ plain_message "user" content ∷ [] }

-- `ToolCalls` is set when there are some; an absent list is the empty one.
unfoldable pub add_assistant_message : String → List ToolCall → AgentState → AgentState
add_assistant_message content tool_calls s = record s {
  messages =
      s.messages ++ record (plain_message "assistant" content) { tool_calls = tool_calls } ∷ [];
}

abbrev pub tool_message : (Any → String) → String → String → Any → ChatMessage
tool_message marshal tool_call_id name result = record {
  role = "tool";
  content = marshal result;
  name = name;
  tool_calls = [];
  tool_call_id = tool_call_id;
}

-- `marshal` is json.Marshal as text, empty on its error, which the code drops.
unfoldable pub add_tool_result : (Any → String) → String → String → Any → AgentState → AgentState
add_tool_result marshal tool_call_id name result s = record s {
  tool_results = s.tool_results ++ tool_message marshal tool_call_id name result ∷ [];
}

unfoldable pub flush_tool_results : AgentState → AgentState
flush_tool_results s = record s { messages = s.messages ++ s.tool_results; tool_results = [] }
