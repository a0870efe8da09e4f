-- ===== src/Http/Json/Payloads.antt =====
-- The outputs of the use cases, and APIResponse of internal/pkg/response/response.go, as JSON.
use go_agent_api.Base.{true, false, Option, none, some, [], ◌∷◌, ◌++◌, map, if◌then◌else◌}
use go_agent_api.Entity.Any.{Any, null, boolean, number, text, array}
use go_agent_api.Entity.Message.{Message, tool_call_value}
use go_agent_api.Workflow.Env.{UsageInfo}
use go_agent_api.Llm.Stream.{StreamEvent}
use go_agent_api.Entity.User.{User}
use go_agent_api.Auth.Login.{LoginOutput}
use go_agent_api.Auth.Refresh.{RefreshTokenOutput}
use go_agent_api.Chat.SendMessage.{SendMessageOutput}
use go_agent_api.Chat.Queries.{GetConversationOutput, ListConversationsOutput}
use go_agent_api.Chat.ApproveAction.{ApproveOutput}
use go_agent_api.Http.Response.{
  Body, success, failure, Payload, user_created, logged_in, refreshed, message_sent,
  conversation_shown, conversations_listed, action_decided, tools_listed, tool_result,
  batch_results, status_is,
}
use go_agent_api.Http.Json.{Encoder, encodable, encode_any, struct, items, filled, pointed, given}
use go_agent_api.Http.Json.Entities.{encode_user, encode_message, encode_conversation, encode_slice}
use go_agent_api.Http.Json.Tools.{encode_tool, flag}

-- APIResponse of a success
abbrev pub envelope : Any → Any
envelope v = struct (("success", boolean true) ∷ given "data" v)

module _ (enc : Encoder) where
  abbrev encode_pointer : Option Message → Any
  encode_pointer none = null
  encode_pointer (some m) = encode_message enc m

  -- an element of `results`; nil where no result was written
  abbrev pub encode_result : Option Any → Any
  encode_result none = null
  encode_result (some v) = encode_any enc v

  -- CreateUserOutput
  abbrev encode_created : User → Any
  encode_created u = struct (("user", encode_user enc u) ∷ [])

  abbrev encode_login : LoginOutput → Any
  encode_login o = struct (
      ("access_token", text o.access_token)
      ∷ ("refresh_token", text o.refresh_token)
      ∷ ("token_type", text o.token_type)
      ∷ ("expires_in", number (enc.int o.expires_in))
      ∷ ("user", encode_user enc o.user)
      ∷ [])

  abbrev encode_refresh : RefreshTokenOutput → Any
  encode_refresh o = struct (
      ("access_token", text o.access_token)
      ∷ ("token_type", text o.token_type)
      ∷ ("expires_in", number (enc.int o.expires_in))
      ∷ [])

  abbrev encode_sent : SendMessageOutput → Any
  encode_sent o = struct (
      ("conversation_id", text (enc.uuid o.conversation_id))
      ∷ ("message", encode_pointer o.message)
      ∷ ("response", text o.response)
      ∷ [])

  abbrev encode_shown : GetConversationOutput → Any
  encode_shown o = struct (
      ("conversation", encode_conversation enc o.conversation)
      ∷ ("messages", encode_slice enc "messages" (map (encode_message enc) o.messages))
      ∷ [])

  abbrev encode_listed : ListConversationsOutput → Any
  encode_listed o = struct (
      (
        "conversations",
        encode_slice enc "conversations" (map (encode_conversation enc) o.conversations),
      )
      ∷ ("total", number (enc.int o.total))
      ∷ [])

  abbrev encode_decided : ApproveOutput → Any
  encode_decided o = struct (
      ("conversation", encode_conversation enc o.conversation)
      ∷ ("status", text o.status)
      ∷ filled "response" o.response)

  -- what a handler gives to JSON
  unfoldable pub encode : Payload → Any
  unfolding encode_user encode_message encode_conversation encode_tool encode_any
  encode (user_created u) = encode_created u
  encode (logged_in o) = encode_login o
  encode (refreshed o) = encode_refresh o
  encode (message_sent o) = encode_sent o
  encode (conversation_shown o) = encode_shown o
  encode (conversations_listed o) = encode_listed o
  encode (action_decided o) = encode_decided o
  encode (tools_listed l) = struct (("tools", array (items (map (encode_tool enc) l))) ∷ [])
  encode (tool_result v) = encode_any enc v
  encode (batch_results l) = struct (("results", array (items (map encode_result l))) ∷ [])
  encode (status_is t) = struct (("status", text t) ∷ [])

  -- What JSON and Error write after the status; nothing where the encoder refuses the value.
  unfoldable pub body_json : Body → Option Any
  unfolding encode encodable
  body_json (success p) = if encodable enc (encode p) then some (envelope (encode p)) else none
  body_json (failure code message) = some (
      struct (
        ("success", boolean false)
        ∷ ("error", struct (("code", text code) ∷ ("message", text message) ∷ []))
        ∷ []))
  body_json _ = none

module _ (enc : Encoder) where
  abbrev encode_usage : UsageInfo → Any
  encode_usage u = struct (
      ("prompt_tokens", number (enc.int u.prompt_tokens))
      ∷ ("completion_tokens", number (enc.int u.completion_tokens))
      ∷ ("total_tokens", number (enc.int u.total_tokens))
      ∷ [])

  -- port.StreamEvent, whose error is not encoded
  unfoldable pub encode_event : StreamEvent → Any
  unfolding tool_call_value
  encode_event e = struct (
      ("type", text e.kind)
      ∷ (filled "delta" e.delta
          ++ (pointed "tool_call" tool_call_value e.tool_call
              ++ (pointed "usage" encode_usage e.usage ++ flag "done" e.done))))
