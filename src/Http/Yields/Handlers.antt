-- ===== src/Http/Yields/Handlers.antt =====
-- The answers of each handler.
use go_agent_api.Base.{ℕ, String, Bool, true, false, List, [], if◌then◌else◌}
use go_agent_api.Base.Exec.{Error, Result, ok, err, error_text}
use go_agent_api.Tools.Execute.{ExecuteToolOutput}
use go_agent_api.Auth.Validate.{ValidateTokenResult}
use go_agent_api.Llm.Stream.{StreamEvent}
use go_agent_api.Http.Request.{Request, Context, ChatCompletionRequest}
use go_agent_api.Http.Response.{
  Response, user_created, logged_in, refreshed, message_sent, conversation_shown,
  conversations_listed, action_decided, tool_result, error, error_with, on_user, invalid_body,
  invalid_id,
}
use go_agent_api.Http.App.{App, Draws}
use go_agent_api.Http.Handlers.{
  register, login_user, refresh_token, list_conversations, create_conversation, send_message,
  get_conversation, approve_action, send,
}
use go_agent_api.Http.Completions.{
  chat_completions, handle_streaming_chat, streamed, completion_input,
}
use go_agent_api.Http.Tools.{list_tools, execute_one, execute_batch}
use go_agent_api.Http.Middleware.{context_of}
use go_agent_api.Http.Server.{
  Protected, post_completions, post_conversations, get_conversations, get_one_conversation,
  post_messages, post_approve, get_tools, post_execute, post_batch, Endpoint, post_register,
  post_login, post_refresh, protected, protected_handler,
}
use go_agent_api.Http.Yields.{
  registers, logs_in, refreshes, completes, opens, lists, shows, sends, decides, lists_tools,
  executes, batches, Covered, Yields, reply-Yields, decoded-Yields,
}

module _ (P : Endpoint → Response → Type 0) (c : Covered P) (app : App) (draws : Draws) where
  abbrev failed :
      (e : Endpoint) (status : ℕ) (code : String) (x : Error) → P e (error_with status code x)
  failed e status code x = c.refuses e status code (error_text x)

  module _ (request : Request) where
    pub register-Yields : Yields (P post_register) (register app draws request)
    unfolding register
    register-Yields =
        decoded-Yields _ invalid_body (app.codec.register request.body) _ (c.refuses _ _ _ _) λ req.
          reply-Yields _ 201 user_created (error_with 400 "REGISTER_ERROR") _
            (λ u. c.accepts _ _ _ registers) (failed _ _ _)

    pub login-Yields : Yields (P post_login) (login_user app draws request)
    unfolding login_user
    login-Yields =
        decoded-Yields _ invalid_body (app.codec.login request.body) _ (c.refuses _ _ _ _) λ req.
          reply-Yields _ 200 logged_in (error_with 401 "LOGIN_ERROR") _
            (λ o. c.accepts _ _ _ logs_in) (failed _ _ _)

    pub refresh-Yields : Yields (P post_refresh) (refresh_token app draws request)
    unfolding refresh_token
    refresh-Yields =
        decoded-Yields _ invalid_body (app.codec.refresh request.body) _ (c.refuses _ _ _ _) λ req.
          reply-Yields _ 200 refreshed (error_with 401 "REFRESH_ERROR") _
            (λ o. c.accepts _ _ _ refreshes) (failed _ _ _)

  module _ (request : Request) (session : ValidateTokenResult) where
    abbrev context : Context
    context = context_of session

    streamed-P : (r : Result (List StreamEvent)) → P (protected post_completions) (streamed r)
    streamed-P (ok events) = c.streams _
    streamed-P (err x) = c.streams _

    completed :
        (req : ChatCompletionRequest) (b : Bool)
        → Yields (P (protected post_completions)) (
            if b
            then handle_streaming_chat app context.user req
            else on_user [] context.user λ user. send app draws context (completion_input user req))
    unfolding handle_streaming_chat on_user
    completed req true = record { yields = λ s. streamed-P _ }
    completed req false =
        reply-Yields _ 200 message_sent (error_with 500 "CHAT_ERROR") _
          (λ o. c.accepts _ _ _ completes) (failed _ _ _)

    pub protected-Yields :
        (e : Protected) → Yields (P (protected e)) (protected_handler app draws e request context)
    unfolding protected_handler chat_completions create_conversation list_conversations
        get_conversation send_message approve_action list_tools execute_one execute_batch on_user
    protected-Yields post_completions =
        decoded-Yields _ invalid_body (app.codec.chat_completion request.body) _ (c.refuses _ _ _ _)
          λ req. completed req req.stream
    protected-Yields post_conversations =
        decoded-Yields _ invalid_body (app.codec.create_conversation request.body) _
          (c.refuses _ _ _ _)
          λ req.
            reply-Yields _ 201 message_sent (error_with 500 "CHAT_ERROR") _
              (λ o. c.accepts _ _ _ opens) (failed _ _ _)
    protected-Yields get_conversations =
        reply-Yields _ 200 conversations_listed (error_with 500 "LIST_ERROR") _
          (λ o. c.accepts _ _ _ lists) (failed _ _ _)
    protected-Yields get_one_conversation =
        decoded-Yields _ invalid_id (app.codec.uuid request.id) _ (c.refuses _ _ _ _) λ id.
          reply-Yields _ 200 conversation_shown
            (λ x. error 404 "NOT_FOUND" "Conversation not found") _ (λ o. c.accepts _ _ _ shows)
            λ x. c.refuses _ _ _ _
    protected-Yields post_messages =
        decoded-Yields _ invalid_id (app.codec.uuid request.id) _ (c.refuses _ _ _ _) λ id.
          decoded-Yields _ invalid_body (app.codec.send_message request.body) _ (c.refuses _ _ _ _)
            λ req.
              reply-Yields _ 200 message_sent (error_with 500 "CHAT_ERROR") _
                (λ o. c.accepts _ _ _ sends) (failed _ _ _)
    protected-Yields post_approve =
        decoded-Yields _ invalid_id (app.codec.uuid request.id) _ (c.refuses _ _ _ _) λ id.
          decoded-Yields _ invalid_body (app.codec.approval request.body) _ (c.refuses _ _ _ _)
            λ req.
              reply-Yields _ 200 action_decided (error_with 500 "APPROVAL_ERROR") _
                (λ o. c.accepts _ _ _ decides) (failed _ _ _)
    protected-Yields get_tools = record { yields = λ s. c.accepts _ _ _ lists_tools }
    protected-Yields post_execute =
        decoded-Yields _ (error 400 "INVALID_REQUEST" "Invalid tool call format")
          (app.codec.tool_call request.body) _ (c.refuses _ _ _ _)
          λ req.
            reply-Yields _ 200 (λ (o : ExecuteToolOutput). tool_result o.result)
              (error_with 500 "TOOL_ERROR") _ (λ o. c.accepts _ _ _ executes) (failed _ _ _)
    protected-Yields post_batch =
        decoded-Yields _ (error 400 "INVALID_REQUEST" "Invalid tool calls format")
          (app.codec.tool_calls request.body) _ (c.refuses _ _ _ _)
          λ calls. record { yields = λ s. c.accepts _ _ _ batches }
