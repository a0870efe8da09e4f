-- ===== src/Workflow/Env.antt =====
-- What the workflow takes from outside: the language model (internal/application/port), the
-- registered tools, json and strings.ToLower of Go, and the order in which a map is walked.
use go_agent_api.Base.{ℕ, String, List}
use go_agent_api.Base.Exec.{Result}
use go_agent_api.Entity.Any.{Any, Object}
use go_agent_api.Entity.Message.{ChatMessage}
use go_agent_api.Tools.Registry.{ChatRequest, History, Registry}
use go_agent_api.Workflow.State.{AgentState}

-- port.Choice
pub record Choice : Type 0 where
  pub index : ℕ
  pub message : ChatMessage
  pub finish_reason : String

-- port.UsageInfo
pub record UsageInfo : Type 0 where
  pub prompt_tokens : ℕ
  pub completion_tokens : ℕ
  pub total_tokens : ℕ

-- port.ChatResponse
pub record ChatResponse : Type 0 where
  pub id : String
  pub object : String
  pub created : ℕ
  pub model : String
  pub choices : List Choice
  pub usage : UsageInfo

pub record Env : Type 0 where
  -- LLMProvider.Chat
  pub chat : History → ChatRequest → Result ChatResponse
  pub registry : Registry
  -- the order in which `range` walks the registry
  pub walked : History → Registry → Registry
  -- json.Unmarshal into a map, json.Marshal as text
  pub unmarshal : String → Result Object
  pub marshal : Any → String
  -- json.Marshal and json.Unmarshal of the agent's state
  pub state_to_json : AgentState → Result String
  pub state_from_json : String → Result AgentState
  pub to_lower : String → String
