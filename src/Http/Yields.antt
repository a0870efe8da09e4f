-- ===== src/Http/Yields.antt =====
-- What the answers of the handlers share: a predicate that holds of what the handlers can write,
-- for an endpoint, holds of every answer of that endpoint.
pub mod Handlers
pub mod Routes
use go_agent_api.Base.{
  ℕ, String, Bool, true, false, Option, none, some, List, [], if◌then◌else◌, Bool-cases, inl, inr,
  str_eq,
}
use go_agent_api.Base.Table.{Map}
use go_agent_api.Base.Exec.{Error, Result, Exec, ok, err, error_text}
use go_agent_api.Store.World.{World}
use go_agent_api.Limits.{Redis, Verdict, passed, counted, over_minute, over_day, limit}
use go_agent_api.Entity.Any.{Any}
use go_agent_api.Entity.User.{User}
use go_agent_api.Tools.Spec.{ToolSpec}
use go_agent_api.Tools.Execute.{ExecuteToolOutput}
use go_agent_api.Auth.Login.{LoginOutput}
use go_agent_api.Auth.Refresh.{RefreshTokenOutput}
use go_agent_api.Auth.Validate.{ValidateTokenResult}
use go_agent_api.Chat.SendMessage.{SendMessageOutput}
use go_agent_api.Chat.Queries.{GetConversationOutput, ListConversationsOutput}
use go_agent_api.Chat.ApproveAction.{ApproveOutput}
use go_agent_api.Llm.Stream.{StreamEvent}
use go_agent_api.Http.Streaming.{Frame}
use go_agent_api.Http.Request.{Request, Context, ChatCompletionRequest}
use go_agent_api.Http.Response.{
  Handler, Response, Body, success, failure, stream, no_body, aborted, Payload, user_created,
  logged_in, refreshed, message_sent, conversation_shown, conversations_listed, action_decided,
  tools_listed, tool_result, batch_results, status_is, json, error, error_with, stream_response,
  answer_of, reply, on_decoded, on_user, invalid_body, invalid_id,
}
use go_agent_api.Http.App.{App, Draws}
use go_agent_api.Http.Handlers.{
  register, login_user, refresh_token, list_conversations, create_conversation, send_message,
  get_conversation, approve_action, send,
}
use go_agent_api.Http.Completions.{
  chat_completions, handle_streaming_chat, streamed, completion_input,
}
use go_agent_api.Http.Tools.{list_tools, execute_one, execute_batch}
use go_agent_api.Http.Middleware.{
  authenticate, context_of, limited, on_verdict, on_session, recovered, recoverer, no_content, cors,
}
use go_agent_api.Http.Server.{
  Protected, post_completions, post_conversations, get_conversations, get_one_conversation,
  post_messages, post_approve, get_tools, post_execute, post_batch, Endpoint, get_health, get_ready,
  post_register, post_login, post_refresh, protected, health, ready, protected_handler,
  serve_protected, on_world, with_limit, route, serve,
}

-- the successes that an endpoint's handler writes
pub data Gives : Endpoint → ℕ → Payload → Type 0 where
  healthy : Gives get_health 200 (status_is "ok")
  is_ready : Gives get_ready 200 (status_is "ready")
  registers : {u : User} → Gives post_register 201 (user_created u)
  logs_in : {o : LoginOutput} → Gives post_login 200 (logged_in o)
  refreshes : {o : RefreshTokenOutput} → Gives post_refresh 200 (refreshed o)
  completes : {o : SendMessageOutput} → Gives (protected post_completions) 200 (message_sent o)
  opens : {o : SendMessageOutput} → Gives (protected post_conversations) 201 (message_sent o)
  lists :
      {o : ListConversationsOutput}
      → Gives (protected get_conversations) 200 (conversations_listed o)
  shows :
      {o : GetConversationOutput}
      → Gives (protected get_one_conversation) 200 (conversation_shown o)
  sends : {o : SendMessageOutput} → Gives (protected post_messages) 200 (message_sent o)
  decides : {o : ApproveOutput} → Gives (protected post_approve) 200 (action_decided o)
  lists_tools : {l : List ToolSpec} → Gives (protected get_tools) 200 (tools_listed l)
  executes : {a : Any} → Gives (protected post_execute) 200 (tool_result a)
  batches : {l : List (Option Any)} → Gives (protected post_batch) 200 (batch_results l)

-- A predicate that holds of what the handlers can write, whatever headers are set around it.
pub record Covered (P : Endpoint → Response → Type 0) : Type 0 where
  pub refuses :
      (e : Endpoint) (status : ℕ) (code message : String) → P e (error status code message)
  pub accepts :
      (e : Endpoint) (status : ℕ) (payload : Payload)
      → Gives e status payload
      → P e (json status payload)
  pub streams : (frames : List Frame) → P (protected post_completions) (stream_response frames)
  pub rewrites :
      (e : Endpoint) (r : Response) (headers : Map String)
      → P e r
      → P e (record r { headers = headers })

-- A handler whose answers a predicate holds of.
pub record Yields {S : Type 0} (P : Response → Type 0) (h : Handler S) : Type 0 where
  pub yields : (s : S) → P (h s).0

module _ (P : Response → Type 0) where
  module _ {A : Type 0} where
    answer_of-P :
        (status : ℕ) (payload : A → Payload) (on_error : Error → Response) (r : Result A)
        → ((a : A) → P (json status (payload a)))
        → ((x : Error) → P (on_error x))
        → P (answer_of status payload on_error r)
    answer_of-P status payload on_error (ok a) good bad = good a
    answer_of-P status payload on_error (err x) good bad = bad x

  module _ {S A : Type 0} where
    pub reply-Yields :
        (status : ℕ) (payload : A → Payload) (on_error : Error → Response) (m : Exec S A)
        → ((a : A) → P (json status (payload a)))
        → ((x : Error) → P (on_error x))
        → Yields P (reply status payload on_error m)
    unfolding reply
    reply-Yields status payload on_error m good bad = record {
      yields = λ s. answer_of-P status payload on_error (m s).0 good bad;
    }

    pub decoded-Yields :
        (refusal : Response) (o : Option A) (next : A → Handler S)
        → P refusal
        → ((a : A) → Yields P (next a))
        → Yields P (on_decoded refusal o next)
    unfolding on_decoded
    decoded-Yields refusal none next p h = record { yields = λ s. p }
    decoded-Yields refusal (some a) next p h = record { yields = (h a).yields }
