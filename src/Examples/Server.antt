-- ===== src/Examples/Server.antt =====
-- The theorems of the HTTP server at the small instance.
use go_agent_api.Base.{
  true, any, false, Option, none, some, List, [], ◌∷◌, ◌++◌, map, length, ◌≡◌, refl, ◌⊎◌, inl, inr,
  arith, Bool-cases, str_eq,
}
use mathlib.Core.Path.{subst}
use go_agent_api.Base.Exec.{Result, ok, err, message}
use go_agent_api.Entity.Any.{Any, Object, null}
use go_agent_api.Entity.Message.{ToolCall}
use go_agent_api.Tools.Registry.{History, Tool, get}
use go_agent_api.Base.Table.{lookup}
use go_agent_api.Tools.Steady.{IsSteady}
use go_agent_api.Llm.Stream.{Read, line, failed, read_sse}
use go_agent_api.Llm.Endings.{
  payload_events, stop_of, last_frame, left_over, stream_frames-read_sse,
}
use go_agent_api.Http.Streaming.{event_frame, closing, stream_frames, unreceived}
use go_agent_api.Http.Request.{
  Codec, Request, Context, ChatCompletionRequest, CreateConversationRequest, SendMessageRequest,
  ApprovalRequest,
}
use go_agent_api.Http.Response.{json, batch_results}
use go_agent_api.Http.App.{App, Draws}
use go_agent_api.Http.Completions.{completion_input, chat_completions}
use go_agent_api.Chat.Storing.{is_opened, is_first_message}
use go_agent_api.Http.Tools.{execute_batch}
use go_agent_api.Http.Server.{post_messages, serve_protected}
use go_agent_api.Http.Guarded.{TurnedAway, LetIn, serve_protected_lem}
use go_agent_api.Http.EmptyCompletion.{empty_completion}
use go_agent_api.Http.Batch.{Covers, alone, execute_batch_lem}
use go_agent_api.Examples.Fixtures.{alice, session, world, library, manager, registry, call_of}
use go_agent_api.Examples.Chats.{use_case, fresh}
use go_agent_api.Examples.Requests.{counters, unused}

abbrev body_of_message : SendMessageRequest
body_of_message = record { message = "add" }

abbrev body_of_approval : ApprovalRequest
body_of_approval = record { approved = true; reason = "" }

abbrev body_of_completion : ChatCompletionRequest
body_of_completion = record {
  model = "";
  messages = [];
  tools = [];
  tool_choice = null;
  temperature = none;
  max_tokens = none;
  stream = false;
}

abbrev body_of_creation : CreateConversationRequest
body_of_creation = record { message = ""; agent_type = "" }

abbrev calls : List ToolCall
calls = call_of "c1" "calculator" ∷ call_of "c2" "unknown" ∷ []

-- Every body decodes to one request of each kind.
abbrev pub codec : Codec
codec = record {
  login = λ t. none;
  register = λ t. none;
  refresh = λ t. none;
  chat_completion = λ t. some body_of_completion;
  create_conversation = λ t. some body_of_creation;
  send_message = λ t. some body_of_message;
  approval = λ t. some body_of_approval;
  tool_call = λ t. none;
  tool_calls = λ t. some calls;
  uuid = λ t. some 5;
}

abbrev pub app : App
app = record {
  lib = library;
  jwt_manager = manager;
  send_message = use_case;
  chat_stream = λ h req. err (message "refused");
  registry = registry;
  codec = codec;
  unmarshal = λ t. ok [];
  ordered = λ column direction cs. cs;
  trim_space = λ t. t;
  decimal = λ n. "n";
  rate_limit_enabled = true;
}

abbrev pub draws : Draws
draws = record {
  now = 5;
  id = 8;
  nonce = "n";
  fresh = fresh;
  walked = registry;
  duration = 0;
  minute_key = "minute";
  day_key = "day";
  schedule = 1 ∷ 0 ∷ [];
}

abbrev pub request : Request
request = record { method = "POST"; authorization = "Bearer sk-1"; id = "5"; body = "{}" }

serve_protected_lem_example :
    TurnedAway world unused
      (serve_protected app counters draws post_messages request (world, unused))
    ⊎ LetIn app counters draws post_messages request world unused
        (serve_protected app counters draws post_messages request (world, unused))
serve_protected_lem_example =
    serve_protected_lem app counters draws post_messages request world unused

abbrev signed_in : Context
signed_in = record { user = some alice; token = some session }

-- a user other than the conversation's
abbrev stranger : Context
stranger = record { user = some (record alice { id = 2 }); token = some session }

empty_completion_example :
    (any
        (is_opened fresh (completion_input alice body_of_completion))
        (chat_completions app draws signed_in request world).1.conversations
      ≡ true)
    × (any
          (is_first_message fresh (completion_input alice body_of_completion))
          (chat_completions app draws signed_in request world).1.messages
        ≡ true)
empty_completion_example =
    empty_completion app draws signed_in alice request body_of_completion world refl refl refl refl
      refl refl refl

abbrev result_at : Option Tool → History → Object → Result Any
result_at none h args = ok null
result_at (some t) h args = t.execute h args

registry-IsSteady : IsSteady registry
unfolding IsSteady get lookup
registry-IsSteady name t h h' args p =
    subst (λ o. result_at o h args ≡ result_at o h' args) p
      (elim (Bool-cases (str_eq "calculator" name)) [
        | inl e ↦ rw e refl
        | inr e ↦ elim (Bool-cases (str_eq "transfer" name)) [
          | inl d ↦ rw (e, d) refl
          | inr d ↦ rw (e, d) refl
        ]
      ])

schedule-Covers : Covers draws.schedule (length calls)
unfolding Covers
schedule-Covers idx p = ground (arith, p)

execute_batch_lem_example :
    (execute_batch app draws stranger request world).0
    ≡ json 200 (batch_results (map (alone app draws stranger) calls))
execute_batch_lem_example =
    execute_batch_lem app draws stranger request calls world registry-IsSteady refl schedule-Covers

abbrev reads : List Read
reads = line "data: x" ∷ failed (message "reset") ∷ []

stream_frames-read_sse_example :
    (stream_frames (read_sse (λ t. t) (λ t. none) reads)
      ≡ map event_frame (payload_events (λ t. t) (λ t. none) reads)
        ++ (last_frame (stop_of (λ t. t) (λ t. none) reads) ∷ closing ∷ []))
    × (unreceived (read_sse (λ t. t) (λ t. none) reads)
        ≡ left_over (stop_of (λ t. t) (λ t. none) reads))
stream_frames-read_sse_example = stream_frames-read_sse (λ t. t) (λ t. none) reads
