-- ===== src/Http/App.antt =====
-- What the handlers and the middleware hold, as main of cmd/api/main.go builds it, and what one
-- request draws.
use go_agent_api.Base.{ℕ, String, Bool, List}
use go_agent_api.Base.Exec.{Result}
use go_agent_api.Entity.Any.{Object}
use go_agent_api.Entity.Conversation.{Conversation}
use go_agent_api.Tools.Registry.{ChatRequest, History, Registry}
use go_agent_api.Auth.Jwt.{Library, JwtManager}
use go_agent_api.Chat.SendMessage.{UseCase, Fresh}
use go_agent_api.Llm.Stream.{StreamEvent}
use go_agent_api.Http.Request.{Codec}

-- The use cases share the repositories, which are the World.
pub record App : Type 0 where
  pub lib : Library
  pub jwt_manager : JwtManager
  pub send_message : UseCase
  -- LLMProvider.ChatStream, with the events that it will send
  pub chat_stream : History → ChatRequest → Result (List StreamEvent)
  pub registry : Registry
  pub codec : Codec
  -- json.Unmarshal into a map
  pub unmarshal : String → Result Object
  -- the database's ORDER BY
  pub ordered : String → String → List Conversation → List Conversation
  -- strings.TrimSpace
  pub trim_space : String → String
  -- a number as `%d` prints it
  pub decimal : ℕ → String
  -- cfg.RateLimit.Enabled
  pub rate_limit_enabled : Bool

-- time.Now(), the same instant throughout a request, the ids and the nonce of uuid.New(), the order
-- in which `range` walks the registry, and a duration that was measured.
pub record Draws : Type 0 where
  pub now : ℕ
  pub id : ℕ
  pub nonce : String
  pub fresh : Fresh
  pub walked : Registry
  pub duration : ℕ
  -- the keys of the rate limiter, which name the token with the minute and with the day
  pub minute_key : String
  pub day_key : String
  -- the order in which the goroutines of a batch call their tools, by index
  pub schedule : List ℕ
