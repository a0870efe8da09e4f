-- ===== src/Http/EmptyCompletion.antt =====
-- ChatCompletions of chat_handler.go without messages.
use go_agent_api.Base.{false, true, some, [], any, ◌≡◌, refl}
use go_agent_api.Entity.User.{User}
use go_agent_api.Store.World.{World}
use go_agent_api.Store.Messages
use go_agent_api.Store.Conversations
use go_agent_api.Chat.Storing.{is_opened, is_first_message, execute-Stored}
use go_agent_api.Http.Request.{Request, Context, ChatCompletionRequest}
use go_agent_api.Http.Response.{reply, on_decoded, on_user}
use go_agent_api.Http.App.{App, Draws}
use go_agent_api.Http.Completions.{completion_input, chat_completions}

-- A completion without messages that is not a stream, where no statement is refused and the ids
-- that are drawn are free, leaves a new conversation of the user in the tables, with a first message
-- that has no text, whatever it is answered.
pub empty_completion :
    (app : App) (draws : Draws) (context : Context) (user : User) (request : Request)
    (req : ChatCompletionRequest) (w : World)
    → app.codec.chat_completion request.body ≡ some req
    → req.stream ≡ false
    → req.messages ≡ []
    → context.user ≡ some user
    → w.faults ≡ []
    → any (Conversations.has_id draws.fresh.conversation) w.conversations ≡ false
    → any (Messages.has_id draws.fresh.user_message) w.messages ≡ false
    → (any
          (is_opened draws.fresh (completion_input user req))
          (chat_completions app draws context request w).1.conversations
        ≡ true)
      × (any
            (is_first_message draws.fresh (completion_input user req))
            (chat_completions app draws context request w).1.messages
          ≡ true)
unfolding chat_completions reply on_decoded on_user
empty_completion app draws context user request req w decoded plain empty known quiet
      conversation_free message_free =
    let (_, conversation, message) =
      execute-Stored app.send_message draws.fresh draws.now (completion_input user req) w empty refl
        quiet conversation_free message_free in
    rw (decoded, plain, known) (conversation, message)
