-- ===== src/Examples/Tests.antt =====
-- Runs of single definitions.
use go_agent_api.Base.{String, true, none, some, List, [], ◌∷◌, ◌≡◌, refl}
use go_agent_api.Base.Exec.{ok, err, message}
use go_agent_api.Base.Texts.{trim_prefix}
use go_agent_api.Config.{Environment, load, get_env, get_parsed, addr}
use go_agent_api.Entity.ValueObjects.{Texts, new_email, new_message_role}
use go_agent_api.Tools.Builtin.Calculator.{
  other, basic_lit, unary, eval, apply_unary, quo, binary, apply,
}
use go_agent_api.Llm.Stream.{Chunk, Read, line, read_sse, content_event, done_event}
use go_agent_api.Http.Response.{status_is, json, no_body}
use go_agent_api.Http.Request.{Request}
use go_agent_api.Http.Middleware.{cors, cors_headers}
use go_agent_api.Http.Server.{ready, health}
use go_agent_api.Examples.Builtins.{small}
use go_agent_api.Examples.Server.{request}

abbrev unset : Environment
unset = record {
  getenv = λ key. "";
  atoi = λ t. none;
  parse_bool = λ t. none;
  parse_duration = λ t. none;
}

load-default : addr (load unset).redis ≡ "localhost:6379"
unfolding load get_env get_parsed addr
load-default = refl

abbrev plain_texts : Texts
plain_texts = record {
  to_lower = λ t. t;
  trim_space = λ t. t;
  is_address = λ t. true;
  is_json = λ t. true;
  split_at_sign = λ t. none;
}

new_email-empty : new_email plain_texts "" ≡ err (message "email cannot be empty")
unfolding new_email
new_email-empty = refl

new_message_role-unknown : new_message_role "robot" ≡ err (message "invalid message role: robot")
unfolding new_message_role
new_message_role-unknown = refl

eval-unary : eval small (unary (other "^") (basic_lit "2")) ≡ ok 2
unfolding eval apply_unary
eval-unary = refl

eval-quotient : eval small (binary quo (basic_lit "2") (basic_lit "2")) ≡ ok 2
unfolding eval apply
eval-quotient = refl

abbrev chunk_of : String → Chunk
chunk_of t = record {
  choices = record { content = t; tool_calls = []; finish_reason = "" } ∷ [];
  usage = none;
}

abbrev sample : List Read
sample = line "data: a" ∷ line ": comment" ∷ line "data: b" ∷ line "data: [DONE]" ∷ []

read_sse-sample :
    read_sse (λ t. t) (λ t. some (chunk_of t)) sample
    ≡ content_event "a" ∷ content_event "b" ∷ done_event ∷ []
unfolding read_sse trim_prefix
read_sse-sample = refl

abbrev preflight : Request
preflight = record request { method = "OPTIONS" }

cors-preflight :
    cors preflight health tt
    ≡ (record { status = 204; headers = cors_headers; body = no_body }, tt {0})
unfolding cors health
cors-preflight = refl

ready-db : ready true true (tt {0}) ≡ (json 200 (status_is "ready"), tt)
unfolding ready
ready-db = refl
