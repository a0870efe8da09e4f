-- ===== src/Http/Main.antt =====
-- main of cmd/api/main.go: what is built from the configuration.
use go_agent_api.Base.{ℕ, String, some, List, [], ◌∷◌}
use go_agent_api.Base.Exec.{Result, ok, err}
use go_agent_api.Config.{Config}
use go_agent_api.Entity.Any.{Any, Object}
use go_agent_api.Entity.Conversation.{Conversation}
use go_agent_api.Tools.Registry.{History, Registry, empty, register_all}
use go_agent_api.Tools.Builtin.Calculator.{Arithmetic, calculator_tool}
use go_agent_api.Tools.Builtin.WebSearch.{Web, new_web_search_tool, web_search_tool}
use go_agent_api.Llm.Client.{Client, Wire, new_client, chat, chat_stream}
use go_agent_api.Workflow.State.{AgentState}
use go_agent_api.Workflow.Env.{Env}
use go_agent_api.Workflow.Graph.{Runnable}
use go_agent_api.Chat.Ports.{chatbot}
use go_agent_api.Chat.SendMessage.{new_send_message}
use go_agent_api.Auth.Jwt.{Library, new_jwt_manager}
use go_agent_api.Http.Request.{Codec}
use go_agent_api.Http.App.{App}

-- the code outside the repository
pub record Outside : Type 0 where
  pub lib : Library
  pub wire : Wire
  pub web : Web
  pub arithmetic : Arithmetic
  pub codec : Codec
  pub walked : History → Registry → Registry
  pub unmarshal : String → Result Object
  pub marshal : Any → String
  pub state_to_json : AgentState → Result String
  pub state_from_json : String → Result AgentState
  pub to_lower : String → String
  pub ordered : String → String → List Conversation → List Conversation
  -- BuildRunnable
  pub compile : (e : Env) → Result (Runnable e)

module _ (cfg : Config) (out : Outside) where
  -- the tool registry
  unfoldable pub tool_registry : Registry
  unfolding register_all calculator_tool new_web_search_tool web_search_tool
  tool_registry =
      register_all
        (calculator_tool out.arithmetic
          ∷ web_search_tool (new_web_search_tool cfg.tools.web_search_api_key) out.web
          ∷ [])
        empty

  unfoldable pub llm_provider : Client
  unfolding new_client
  llm_provider = new_client cfg.llm.base_url cfg.llm.api_key

  -- NewChatbotGraph
  unfoldable pub chatbot_env : Env
  unfolding tool_registry llm_provider
  chatbot_env = record {
    chat = chat llm_provider out.wire;
    registry = tool_registry;
    walked = out.walked;
    unmarshal = out.unmarshal;
    marshal = out.marshal;
    state_to_json = out.state_to_json;
    state_from_json = out.state_from_json;
    to_lower = out.to_lower;
  }

  -- The request's id and the time are what a run of the workflow draws.
  abbrev app_with : String → ℕ → Runnable chatbot_env → App
  app_with request_id now graph = record {
    lib = out.lib;
    jwt_manager = new_jwt_manager cfg.jwt.secret cfg.jwt.access_token_ttl cfg.jwt.refresh_token_ttl;
    send_message =
        new_send_message (chat llm_provider out.wire)
          (chatbot chatbot_env (some graph) request_id now) cfg.llm.default_model;
    chat_stream = chat_stream llm_provider out.wire;
    registry = tool_registry;
    codec = out.codec;
    unmarshal = out.unmarshal;
    ordered = out.ordered;
    trim_space = out.wire.trim_space;
    decimal = out.wire.decimal;
    rate_limit_enabled = cfg.rate_limit.enabled;
  }

  abbrev built : String → ℕ → Result (Runnable chatbot_env) → Result App
  built request_id now (err x) = err x
  built request_id now (ok graph) = ok (app_with request_id now graph)

  -- main, up to the router: it exits where the graph is not built.
  unfoldable pub new_app : String → ℕ → Result App
  unfolding chatbot_env new_jwt_manager new_send_message
  new_app request_id now = built request_id now (out.compile chatbot_env)
