-- ===== src/Http/Request.antt =====
-- internal/application/dto/request, and what a handler reads of a request. encoding/json and
-- uuid.Parse are the record `Codec`.
use go_agent_api.Base.{ℕ, String, Bool, Option, List}
use go_agent_api.Entity.Any.{Any}
use go_agent_api.Entity.User.{User}
use go_agent_api.Entity.Token.{Token}
use go_agent_api.Entity.Message.{ToolCall, ChatMessage}

pub record LoginRequest : Type 0 where
  pub email : String
  pub password : String

pub record RegisterRequest : Type 0 where
  pub email : String
  pub password : String
  pub name : String

pub record RefreshTokenRequest : Type 0 where
  pub refresh_token : String

pub record ChatCompletionRequest : Type 0 where
  pub model : String
  pub messages : List ChatMessage
  pub tools : List Any
  pub tool_choice : Any
  pub temperature : Option ℕ
  pub max_tokens : Option ℕ
  pub stream : Bool

pub record CreateConversationRequest : Type 0 where
  pub message : String
  pub agent_type : String

pub record SendMessageRequest : Type 0 where
  pub message : String

pub record ApprovalRequest : Type 0 where
  pub approved : Bool
  pub reason : String

-- A decoder gives none where the code sees an error.
pub record Codec : Type 0 where
  pub login : String → Option LoginRequest
  pub register : String → Option RegisterRequest
  pub refresh : String → Option RefreshTokenRequest
  pub chat_completion : String → Option ChatCompletionRequest
  pub create_conversation : String → Option CreateConversationRequest
  pub send_message : String → Option SendMessageRequest
  pub approval : String → Option ApprovalRequest
  pub tool_call : String → Option ToolCall
  pub tool_calls : String → Option (List ToolCall)
  pub uuid : String → Option ℕ

pub record Request : Type 0 where
  pub method : String
  -- the header "Authorization", empty where it is absent
  pub authorization : String
  -- the route's parameter "id"
  pub id : String
  pub body : String

-- the values of the request's context: GetUserFromContext and GetTokenFromContext
pub record Context : Type 0 where
  pub user : Option User
  pub token : Option Token
