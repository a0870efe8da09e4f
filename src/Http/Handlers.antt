-- ===== src/Http/Handlers.antt =====
-- internal/infrastructure/http/handler: auth_handler.go, and chat_handler.go without its streams.
use go_agent_api.Base.{none, some, []}
use go_agent_api.Base.Exec.{Error}
use go_agent_api.Entity.User.{User}
use go_agent_api.Store.World.{World}
use go_agent_api.Auth.CreateUser.{create_user}
use go_agent_api.Auth.Login.{login}
use go_agent_api.Auth.Refresh.{refresh}
use go_agent_api.Chat.SendMessage
use go_agent_api.Chat.SendMessage.{SendMessageInput}
use go_agent_api.Chat.ApproveAction
use go_agent_api.Chat.Queries
use go_agent_api.Http.Request.{Request, Context}
use go_agent_api.Http.Response.{
  Handler, Response, user_created, logged_in, refreshed, message_sent, conversation_shown,
  conversations_listed, action_decided, error, reply, on_decoded, error_with, invalid_body,
  invalid_id, on_user,
}
use go_agent_api.Http.App.{App, Draws}

module _ (app : App) (draws : Draws) (request : Request) where
  -- AuthHandler.Register
  unfoldable pub register : Handler World
  unfolding on_decoded reply
  register = on_decoded invalid_body (app.codec.register request.body) λ req.
      reply 201 user_created (error_with 400 "REGISTER_ERROR") (
        create_user app.lib draws.id draws.now
          (record { email = req.email; password = req.password; name = req.name }))

  -- AuthHandler.Login
  unfoldable pub login_user : Handler World
  unfolding on_decoded reply
  login_user = on_decoded invalid_body (app.codec.login request.body) λ req.
      reply 200 logged_in (error_with 401 "LOGIN_ERROR") (
        login app.lib app.jwt_manager draws.id draws.nonce draws.now
          (record { email = req.email; password = req.password }))

  -- AuthHandler.RefreshToken
  unfoldable pub refresh_token : Handler World
  unfolding on_decoded reply
  refresh_token = on_decoded invalid_body (app.codec.refresh request.body) λ req.
      reply 200 refreshed (error_with 401 "REFRESH_ERROR")
        (refresh app.lib app.jwt_manager draws.now req.refresh_token)

-- the input of a message, with its conversation, its content and its agent's type left out
abbrev pub input_of : User → SendMessageInput
input_of user = record {
  conversation_id = none;
  user_id = user.id;
  content = "";
  agent_type = "";
  messages = [];
  model = "";
  tools = [];
}

module _ (app : App) (draws : Draws) (context : Context) where
  -- the call of the use case, and its error
  abbrev pub send : SendMessageInput → Handler World
  send input =
      reply 200 message_sent (error_with 500 "CHAT_ERROR")
        (SendMessage.execute app.send_message draws.fresh draws.now input)

  -- ListConversations
  unfoldable pub list_conversations : Handler World
  unfolding on_user reply
  list_conversations = on_user [] context.user λ user.
      reply 200 conversations_listed (error_with 500 "LIST_ERROR")
        (Queries.list_conversations app.ordered user.id)

  module _ (request : Request) where
    -- CreateConversation
    unfoldable pub create_conversation : Handler World
    unfolding on_decoded on_user reply
    create_conversation =
        on_decoded invalid_body (app.codec.create_conversation request.body) λ req.
          on_user [] context.user λ user. reply 201 message_sent (error_with 500 "CHAT_ERROR") (
            SendMessage.execute app.send_message draws.fresh draws.now
              (record (input_of user) { content = req.message; agent_type = req.agent_type }))

    -- SendMessage
    unfoldable pub send_message : Handler World
    unfolding on_decoded on_user reply
    send_message = on_decoded invalid_id (app.codec.uuid request.id) λ id.
        on_decoded invalid_body (app.codec.send_message request.body) λ req.
          on_user [] context.user λ user.
            send (record (input_of user) { conversation_id = some id; content = req.message })

    abbrev not_found : Error → Response
    not_found x = error 404 "NOT_FOUND" "Conversation not found"

    -- GetConversation
    unfoldable pub get_conversation : Handler World
    unfolding on_decoded on_user reply
    get_conversation = on_decoded invalid_id (app.codec.uuid request.id) λ id.
        on_user [] context.user
          λ user. reply 200 conversation_shown not_found (Queries.get_conversation id user.id)

    -- ApproveAction
    unfoldable pub approve_action : Handler World
    unfolding on_decoded on_user reply
    approve_action = on_decoded invalid_id (app.codec.uuid request.id) λ id.
        on_decoded invalid_body (app.codec.approval request.body) λ req.
          on_user [] context.user λ user.
            reply 200 action_decided (error_with 500 "APPROVAL_ERROR") (
              ApproveAction.execute app.send_message.engine draws.id draws.now (record {
                conversation_id = id;
                user_id = user.id;
                approved = req.approved;
                reason = req.reason;
              }))
