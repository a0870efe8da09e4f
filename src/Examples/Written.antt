-- ===== src/Examples/Written.antt =====
-- What is written of answers, at the small instance.
use go_agent_api.Base.{ℕ, String, true, false, some, List, [], ◌∷◌, ◌≡◌, refl, arith}
use go_agent_api.Base.Exec.{◌>>=◌}
use go_agent_api.Entity.Any.{Any, null, number, object, field, end, text}
use go_agent_api.Entity.Token.{new_api_key}
use go_agent_api.Store.Users
use go_agent_api.Store.Tokens
use go_agent_api.Auth.Jwt.{generate_access_token, generate_refresh_token}
use go_agent_api.Auth.Login.{login, issue, session_token}
use go_agent_api.Llm.Stream.{done_event}
use go_agent_api.Http.Response.{on_decoded, reply, logged_in, tool_result, json, stream_response}
use go_agent_api.Http.Streaming.{event_frame, closing}
use go_agent_api.Http.Handlers.{login_user}
use go_agent_api.Http.Server.{protected, get_tools, post_messages, route, serve}
use go_agent_api.Http.Json.{Encoder, encodable, encode_any}
use go_agent_api.Http.Json.Entities.{encode_user}
use go_agent_api.Http.Json.Payloads.{encode, envelope, body_json, encode_event}
use go_agent_api.Http.Writer.{
  Writer, without_flush, logged, sse_data, sse_event, write_frame, write_response, log_response,
}
use go_agent_api.Http.Typed.{IsTyped, route-IsTyped}
use go_agent_api.Http.Exposure.{Exposes, logs_in, SignsIn-Exposes}
use go_agent_api.Http.Logging.{log_response-serve}
use go_agent_api.Examples.Fixtures.{world}
use go_agent_api.Examples.Requests.{counters, unused}
use go_agent_api.Examples.Sessions
use go_agent_api.Examples.Sessions.{unissued}
use go_agent_api.Examples.Server.{app, draws, request}
use go_agent_api.Examples.Login.{signing_app, at_login}

abbrev encoder : Encoder
encoder = record {
  uuid = λ id. "id";
  time = λ t. "2024-01-01T00:00:00Z";
  int = λ n. n;
  finite = λ bits. true;
  blank = λ name. null;
}

route-IsTyped_example :
    IsTyped encoder
      (protected get_tools)
      (route app counters draws true true (protected get_tools) request (world, unused)).0.body
route-IsTyped_example =
    route-IsTyped encoder app counters draws true true (protected get_tools) request (world, unused)

abbrev shown : Any
shown = envelope (encode encoder (logged_in Sessions.logged_in))

SignsIn-Exposes_example :
    Exposes "alice@example.com" (login_user signing_app at_login request unissued).1 shown
unfolding login_user on_decoded reply login issue session_token new_api_key generate_access_token
    generate_refresh_token Users.find_by_email Tokens.create body_json encodable encode encode_user
    json ◌>>=◌
SignsIn-Exposes_example =
    SignsIn-Exposes encoder signing_app at_login request unissued
      (login_user signing_app at_login request) "alice@example.com" shown (logs_in refl)
      (omega arith) refl

-- what a connection has seen
data Seen : Type 0 where
  header : String → String → Seen
  status : ℕ → Seen
  bytes : String → Seen
  flushed : Seen

abbrev connection : Writer (List Seen)
connection = record {
  set_header = λ name value seen. header name value ∷ seen;
  write_header = λ code seen. status code ∷ seen;
  write = λ t seen. bytes t ∷ seen;
  flush = some λ seen. flushed ∷ seen;
}

abbrev as_text : Any → String
as_text v = "{}"

log_response-serve_example :
    log_response encoder as_text connection
      (serve app counters draws true true (protected post_messages) request (world, unused)).0
      []
    ≡ (
      (serve app counters draws true true
          (protected post_messages)
          request
          (world, unused)).0.status,
      write_response encoder as_text
          (without_flush connection)
          (serve app counters draws true true (protected post_messages) request (world, unused)).0
          [],
    )
log_response-serve_example =
    log_response-serve encoder as_text connection app counters draws true true
      (protected post_messages) request (world, unused) []

-- The handler flushes each event of a stream, and behind the logger none.
flushes_each :
    write_response encoder as_text connection
      (stream_response (event_frame done_event ∷ closing ∷ []))
      []
    ≡ flushed
      ∷ bytes "data: [DONE]\n\n"
      ∷ flushed
      ∷ bytes "data: {}\n\n"
      ∷ header "X-Accel-Buffering" "no"
      ∷ header "Connection" "keep-alive"
      ∷ header "Cache-Control" "no-cache"
      ∷ header "Content-Type" "text/event-stream"
      ∷ []
unfolding write_response write_frame sse_data sse_event encodable encode_event stream_response
flushes_each = refl

flushes_none :
    log_response encoder as_text connection
      (stream_response (event_frame done_event ∷ closing ∷ []))
      []
    ≡ (
      200,
      bytes "data: [DONE]\n\n"
          ∷ bytes "data: {}\n\n"
          ∷ header "X-Accel-Buffering" "no"
          ∷ header "Connection" "keep-alive"
          ∷ header "Cache-Control" "no-cache"
          ∷ header "Content-Type" "text/event-stream"
          ∷ [],
    )
unfolding log_response write_response logged write_frame sse_data sse_event encodable encode_event
    stream_response
flushes_none = refl

-- A result that is not finite, as the calculator's can be: the status is written, and no body.
infinite_result :
    write_response
      (record encoder { finite = λ bits. false })
      as_text
      connection
      (json 200 (
        tool_result (
          object (
            field "expression"
              (text "1e308 * 10")
              (field "result" (number 0x7ff0_0000_0000_0000) end)))))
      []
    ≡ status 200 ∷ header "Content-Type" "application/json" ∷ []
unfolding write_response body_json encodable encode encode_any json
infinite_result = refl
