-- ===== src/Http/Response.antt =====
-- internal/pkg/response/response.go, and what the handlers give it to encode. A handler that panics
-- leaves the headers that it has set.
use go_agent_api.Base.{ℕ, String, Option, none, some, List, [], ◌∷◌}
use go_agent_api.Base.Exec.{Error, Result, Exec, ok, err, panicked, error_text}
use go_agent_api.Base.Table.{Map}
use go_agent_api.Entity.Any.{Any}
use go_agent_api.Entity.User.{User}
use go_agent_api.Tools.Spec.{ToolSpec}
use go_agent_api.Auth.Login.{LoginOutput}
use go_agent_api.Auth.Refresh.{RefreshTokenOutput}
use go_agent_api.Chat.SendMessage.{SendMessageOutput}
use go_agent_api.Chat.Queries.{GetConversationOutput, ListConversationsOutput}
use go_agent_api.Chat.ApproveAction.{ApproveOutput}
use go_agent_api.Http.Streaming.{Frame}

-- the data of a success
pub data Payload : Type 0 where
  user_created : User → Payload
  logged_in : LoginOutput → Payload
  refreshed : RefreshTokenOutput → Payload
  message_sent : SendMessageOutput → Payload
  conversation_shown : GetConversationOutput → Payload
  conversations_listed : ListConversationsOutput → Payload
  action_decided : ApproveOutput → Payload
  tools_listed : List ToolSpec → Payload
  tool_result : Any → Payload
  -- a result that was not written is nil
  batch_results : List (Option Any) → Payload
  status_is : String → Payload

-- APIResponse with data, and with an APIError of a code and a message; a stream of events; no body;
-- and a handler that panicked
pub data Body : Type 0 where
  success : Payload → Body
  failure : String → String → Body
  stream : List Frame → Body
  no_body : Body
  aborted : Error → Body

pub record Response : Type 0 where
  pub status : ℕ
  pub headers : Map String
  pub body : Body

abbrev pub Handler : Type 0 → Type 0
Handler S = S → Response × S

abbrev content_type : Map String
content_type = ("Content-Type", "application/json") ∷ []

-- JSON
unfoldable pub json : ℕ → Payload → Response
json status payload = record { status = status; headers = content_type; body = success payload }

-- Error
unfoldable pub error : ℕ → String → String → Response
error status code message = record {
  status = status;
  headers = content_type;
  body = failure code message;
}

-- the headers that Stream sets
abbrev pub stream_headers : Map String
stream_headers =
    ("Content-Type", "text/event-stream")
    ∷ ("Cache-Control", "no-cache")
    ∷ ("Connection", "keep-alive")
    ∷ ("X-Accel-Buffering", "no")
    ∷ []

-- a stream, with its frames: the first write sends status 200
unfoldable pub stream_response : List Frame → Response
stream_response frames = record { status = 200; headers = stream_headers; body = stream frames }

module _ {A : Type 0} where
  abbrev pub answer_of : ℕ → (A → Payload) → (Error → Response) → Result A → Response
  answer_of status payload on_error (ok a) = json status (payload a)
  answer_of status payload on_error (err x) = on_error x

module _ {S A : Type 0} where
  -- the end of a handler: an error's response, or the output as JSON
  unfoldable pub reply : ℕ → (A → Payload) → (Error → Response) → Exec S A → Handler S
  reply status payload on_error m s = (answer_of status payload on_error (m s).0, (m s).1)

  -- the test of a decoded body or parameter: without it the handler ends
  unfoldable pub on_decoded : Response → Option A → (A → Handler S) → Handler S
  on_decoded refusal none next s = (refusal, s)
  on_decoded refusal (some a) next s = next a s

-- an error response with the error's text
abbrev pub error_with : ℕ → String → Error → Response
error_with status code x = error status code (error_text x)

abbrev pub invalid_body : Response
invalid_body = error 400 "INVALID_REQUEST" "Invalid request body"

abbrev pub invalid_id : Response
invalid_id = error 400 "INVALID_ID" "Invalid conversation ID"

-- a panic where a pointer is nil, after these headers were set
abbrev pub nil_pointer : Map String → Response
nil_pointer headers = record {
  status = 200;
  headers = headers;
  body = aborted (panicked "invalid memory address or nil pointer dereference");
}

module _ {S : Type 0} where
  -- `user.ID` of a user that can be nil
  unfoldable pub on_user : Map String → Option User → (User → Handler S) → Handler S
  on_user headers none next s = (nil_pointer headers, s)
  on_user headers (some user) next s = next user s
