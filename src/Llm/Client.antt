-- ===== src/Llm/Client.antt =====
-- Client: Chat and ChatStream. HTTP and encoding/json are the record `Wire`.
use Prim.Native.String.{◌++◌}
use go_agent_api.Base.{ℕ, String, true, Option, List, [], ◌∷◌, ◌==◌, if◌then◌else◌}
use go_agent_api.Base.Texts.{trim_suffix}
use go_agent_api.Base.Exec.{Result, ok, err, message, wrap_result}
use go_agent_api.Base.Table.{Map}
use go_agent_api.Tools.Registry.{ChatRequest, History}
use go_agent_api.Workflow.Env.{ChatResponse}
use go_agent_api.Llm.Stream.{Read, Chunk, StreamEvent, read_sse}

pub record Client : Type 0 where
  pub base_url : String
  pub api_key : String

-- NewClient; its HTTP client, with a limit of 120 seconds, is the wire's.
unfoldable pub new_client : String → String → Client
unfolding trim_suffix
new_client base_url api_key = record { base_url = trim_suffix base_url "/"; api_key = api_key }

pub record HttpRequest : Type 0 where
  pub method : String
  pub url : String
  pub headers : Map String
  pub body : String

-- A response, its body as one text and as the rounds of a reader of lines.
pub record HttpResponse : Type 0 where
  pub status : ℕ
  pub text : String
  pub reads : List Read

pub record Wire : Type 0 where
  pub marshal : ChatRequest → Result String
  -- http.NewRequestWithContext, and httpClient.Do
  pub create : HttpRequest → Result HttpRequest
  pub exchange : History → HttpRequest → Result HttpResponse
  pub decode_response : String → Result ChatResponse
  pub decode_chunk : String → Option Chunk
  pub trim_space : String → String
  -- a number as `%d` prints it
  pub decimal : ℕ → String

infixl 10 ◌then_try◌
-- `if err != nil { return nil, err }`
abbrev pub ◌then_try◌ {ℓ} : {A B : Type ℓ} → Result A → (A → Result B) → Result B
ok a then_try f = f a
err x then_try f = err x

abbrev plain_headers : Client → Map String
plain_headers c =
    ("Content-Type", "application/json") ∷ ("Authorization", "Bearer " ++ c.api_key) ∷ []

abbrev stream_headers : Client → Map String
stream_headers c =
    ("Content-Type", "application/json")
    ∷ ("Authorization", "Bearer " ++ c.api_key)
    ∷ ("Accept", "text/event-stream")
    ∷ []

module _ (c : Client) (wire : Wire) (h : History) where
  abbrev refuse_status : HttpResponse → Result HttpResponse
  refuse_status resp =
      if resp.status == 200
      then ok resp
      else err (message ("API error (status " ++ wire.decimal resp.status ++ "): " ++ resp.text))

  -- from the request to a response whose status is OK
  unfoldable pub call_api : Map String → ChatRequest → Result HttpResponse
  call_api headers req = wrap_result "marshal request" (wire.marshal req) then_try λ body.
      wrap_result "create request" (
        wire.create (record {
          method = "POST";
          url = c.base_url ++ "/chat/completions";
          headers = headers;
          body = body;
        }))
      then_try λ http_req.
          wrap_result "do request" (wire.exchange h http_req) then_try refuse_status

  -- Chat
  unfoldable pub chat : ChatRequest → Result ChatResponse
  unfolding call_api
  chat req = call_api (plain_headers c) req then_try λ resp.
      wrap_result "decode response" (wire.decode_response resp.text)

  -- ChatStream, with the events that its goroutine sends
  unfoldable pub chat_stream : ChatRequest → Result (List StreamEvent)
  unfolding call_api
  chat_stream req = call_api (stream_headers c) (record req { stream = true }) then_try λ resp.
      ok (read_sse wire.trim_space wire.decode_chunk resp.reads)
