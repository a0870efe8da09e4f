-- ===== src/Http/Completions.antt =====
-- chat_handler.go: ChatCompletions and handleStreamingChat.
use go_agent_api.Base.{◌∷◌, [], Option, List, if◌then◌else◌}
use go_agent_api.Base.Exec.{Result, Exec, ok, err, error_text}
use go_agent_api.Entity.User.{User}
use go_agent_api.Tools.Registry.{ChatRequest, History, chatted}
use go_agent_api.Llm.Stream.{StreamEvent}
use go_agent_api.Store.World.{World, outside}
use go_agent_api.Chat.SendMessage.{SendMessageInput, stream_request}
use go_agent_api.Http.Request.{Request, Context, ChatCompletionRequest}
use go_agent_api.Http.Streaming.{error_frame, stream_frames}
use go_agent_api.Http.Response.{
  Handler, Response, stream_headers, stream_response, reply, on_decoded, invalid_body, on_user,
}
use go_agent_api.Http.App.{App, Draws}
use go_agent_api.Http.Handlers.{input_of, send}

abbrev open_stream : App → ChatRequest → Exec History (List StreamEvent)
open_stream app req h = (app.chat_stream h req, chatted req ∷ h)

-- ExecuteStream
unfoldable pub execute_stream : App → SendMessageInput → Exec World (List StreamEvent)
unfolding outside stream_request
execute_stream app input = outside (open_stream app (stream_request app.send_message input))

-- what is written after the headers of the stream
abbrev pub streamed : Result (List StreamEvent) → Response
streamed (err x) = stream_response (error_frame (error_text x) ∷ [])
streamed (ok events) = stream_response (stream_frames events)

abbrev pub completion_input : User → ChatCompletionRequest → SendMessageInput
completion_input user req = record (input_of user) { messages = req.messages; model = req.model }

-- handleStreamingChat
unfoldable pub handle_streaming_chat : App → Option User → ChatCompletionRequest → Handler World
unfolding on_user execute_stream
handle_streaming_chat app user req =
    on_user stream_headers user
      λ u. λ w. let (r, v) = execute_stream app (completion_input u req) w in (streamed r, v)

-- ChatCompletions
unfoldable pub chat_completions : App → Draws → Context → Request → Handler World
unfolding on_decoded on_user reply handle_streaming_chat
chat_completions app draws context request =
    on_decoded invalid_body (app.codec.chat_completion request.body) λ req.
      if req.stream
      then handle_streaming_chat app context.user req
      else on_user [] context.user λ user. send app draws context (completion_input user req)
