-- ===== src/Examples/Fixtures.antt =====
-- A small instance of the program: two tools, one of which requires an approval, a model that
-- answers from the calls made before, and a database with one user.
use go_agent_api.Base.{String, Bool, true, false, none, List, [], ◌∷◌, str_eq, if◌then◌else◌}
use go_agent_api.Base.Exec.{Result, ok, err, message}
use go_agent_api.Entity.Any.{text}
use go_agent_api.Entity.Message.{ToolCall}
use go_agent_api.Entity.User.{User, user}
use go_agent_api.Entity.Token.{Token, access}
use go_agent_api.Tools.Registry.{Tool, Registry, History, ChatRequest}
use go_agent_api.Workflow.State.{AgentState, plain_message}
use go_agent_api.Workflow.Env.{Env, ChatResponse}
use go_agent_api.Workflow.Graph.{Runnable}
use go_agent_api.Workflow.Walks.{bounded}
use go_agent_api.Workflow.Engine.{WorkflowInput}
use go_agent_api.Store.World.{World}
use go_agent_api.Auth.Jwt.{Library, JwtManager, Claims, hmac, ParsedToken}

abbrev tool_of : String → Bool → Tool
tool_of name guarded = record {
  name = name;
  description = "";
  definition = record {
    kind = "function";
    function = record { name = name; description = ""; parameters = none; strict = false };
  };
  execute = λ h args. ok (text "4");
  requires_approval = guarded;
  validate = λ args. none;
}

abbrev pub calculator : Tool
calculator = tool_of "calculator" false

abbrev pub registry : Registry
registry = ("calculator", calculator) ∷ ("transfer", tool_of "transfer" true) ∷ []

abbrev pub call_of : String → String → ToolCall
call_of id name = record {
  id = id;
  kind = "function";
  function = record { name = name; arguments = "{}" };
}

abbrev pub safe_calls : List ToolCall
safe_calls = call_of "c1" "calculator" ∷ call_of "c2" "unknown" ∷ []

abbrev pub guarded_calls : List ToolCall
guarded_calls = call_of "c1" "calculator" ∷ call_of "c2" "transfer" ∷ []

abbrev response_of : String → List ToolCall → ChatResponse
response_of content calls = record {
  id = "";
  object = "";
  created = 0;
  model = "";
  choices =
      record {
        index = 0;
        message = record (plain_message "assistant" content) { tool_calls = calls };
        finish_reason = "stop";
      }
      ∷ [];
  usage = record { prompt_tokens = 1; completion_tokens = 2; total_tokens = 3 };
}

-- The model asks for the calls at first, and answers after that.
abbrev chat_of : List ToolCall → History → ChatRequest → Result ChatResponse
chat_of calls [] req = ok (response_of "" calls)
chat_of calls (x ∷ h) req = ok (response_of "It is 4." [])

abbrev pub input : WorkflowInput
input = record {
  conversation_id = 5;
  user_id = 1;
  content = "add";
  model = "";
  messages = [];
  temperature = 0;
}

-- The agent's state from which JSON is read.
abbrev pub stored_state : List ToolCall → AgentState
stored_state calls = record {
  conversation_id = 5;
  user_id = 1;
  request_id = "r";
  messages = [];
  system_prompt = "";
  user_input = "add";
  current_output = "";
  model = "m";
  temperature = 0;
  max_tokens = 4096;
  available_tools = [];
  pending_tools = calls;
  tool_results = [];
  current_agent = "general";
  next_agent = "";
  agent_history = [];
  requires_approval = false;
  approval_reason = "";
  approval_data = [];
  is_approved = none;
  iteration = 0;
  max_iterations = 10;
  should_stop = false;
  error = "";
  start_time = 0;
  tokens_used = 0;
  tool_calls_count = 0;
}

abbrev pub env : List ToolCall → Env
env calls = record {
  chat = chat_of calls;
  registry = registry;
  walked = λ h r. r;
  unmarshal = λ t. ok [];
  marshal = λ v. "value";
  state_to_json = λ s. ok "json";
  state_from_json = λ t. ok (stored_state calls);
  to_lower = λ t. t;
}

abbrev pub graph : (calls : List ToolCall) → Runnable (env calls)
graph calls = bounded (env calls) 50

abbrev pub alice : User
alice = record {
  id = 1;
  email = "alice@example.com";
  password_hash = "hash:secret";
  name = "Alice";
  role = user;
  is_active = true;
  metadata = [];
  created_at = 0;
  updated_at = 0;
}

abbrev pub session : Token
session = record {
  id = 7;
  user_id = 1;
  token_hash = "digest";
  token_type = access;
  name = "session";
  expires_at = 1000;
  last_used_at = none;
  rate_limit_per_minute = 2;
  rate_limit_per_day = 10;
  allowed_tools = "calculator" ∷ [];
  allowed_models = [];
  is_revoked = false;
  metadata = [];
  created_at = 0;
  updated_at = 0;
}

abbrev pub world : World
world = record {
  users = alice ∷ [];
  tokens = session ∷ [];
  conversations = [];
  messages = [];
  executions = [];
  next_sequence = 1;
  now = 3;
  faults = [];
  history = [];
}

abbrev pub claims : Claims
claims = record {
  user_id = 1;
  token_id = 7;
  token_type = "refresh";
  expires_at = 1000;
  issued_at = 0;
  issuer = "go-agent-api";
}

abbrev parsed : Result String → String → Result ParsedToken
parsed (err x) t = err x
parsed (ok secret) t =
    if str_eq t "signed"
    then ok (record { claims = claims; valid = true })
    else err (message "malformed")

abbrev pub library : Library
library = record {
  sign = λ secret c. ok "signed";
  parse = λ now keys t. parsed (keys hmac) t;
  numeric_date = λ t. t;
  sha256_hex = λ t. "digest";
  password_matches = λ hash password. str_eq hash "hash:secret";
  hash_password = λ password. ok "hash:secret";
}

abbrev pub manager : JwtManager
manager = record {
  secret = "s";
  access_token_ttl = 900;
  refresh_token_ttl = 9000;
  issuer = "go-agent-api";
}
