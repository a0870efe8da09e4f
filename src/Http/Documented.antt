-- ===== src/Http/Documented.antt =====
-- internal/pkg/response/swagger_types.go: the types that the documentation gives for the answers,
-- and what it means that a JSON value has the fields of such a type. The `@Success` and `@Failure`
-- comments of the handlers say which type an endpoint answers with.
use go_agent_api.Base.{String, Bool, true, false, ◌&&◌, Option, none, some}
use go_agent_api.Entity.Any.{Any, boolean, number, text, array, object, Items, last, item, Fields}
use go_agent_api.Http.Json.{member}
use go_agent_api.Http.Server.{
  Protected, post_completions, post_conversations, get_conversations, get_one_conversation,
  post_messages, post_approve, get_tools, post_execute, post_batch, Endpoint, get_health, get_ready,
  post_register, post_login, post_refresh, protected,
}

mutual
  -- string, bool, int, any, a slice and a struct
  pub data Shape : Type 0 where
    a_string : Shape
    a_bool : Shape
    an_int : Shape
    anything : Shape
    list_of : Shape → Shape
    struct_of : Properties → Shape

  pub data Properties : Type 0 where
    no_more : Properties
    property : String → Shape → Properties → Properties

-- The struct fields that are absent are nil where the type is `any`.
abbrev may_be_absent : Shape → Bool
may_be_absent anything = true
may_be_absent _ = false

abbrev fits_member : Bool → (Any → Bool) → Option Any → Bool
fits_member absent_fits fits_value none = absent_fits
fits_member absent_fits fits_value (some v) = fits_value v

abbrev each_item : (Any → Bool) → Items → Bool
each_item fits_value last = true
each_item fits_value (item v vs) = fits_value v && each_item fits_value vs

unfoldable mutual
  -- whether a reader of the type finds each of its fields, with its type
  pub fits : Shape → Any → Bool
  fits a_string (text t) = true
  fits a_bool (boolean b) = true
  fits an_int (number n) = true
  fits anything v = true
  fits (list_of s) (array vs) = each_item (fits s) vs
  fits (struct_of ps) (object fs) = fits_properties ps fs
  fits _ _ = false

  fits_properties : Properties → Fields → Bool
  fits_properties no_more fs = true
  fits_properties (property name s ps) fs =
      fits_member (may_be_absent s) (fits s) (member name fs) && fits_properties ps fs

-- a response with a `success` and one more field
abbrev wrapper : String → Shape → Shape
wrapper name s = struct_of (property "success" a_bool (property name s no_more))

abbrev swagger_err : Shape
swagger_err = struct_of (property "code" a_string (property "message" a_string no_more))

abbrev pub swagger_error_response : Shape
swagger_error_response = wrapper "error" swagger_err

abbrev swagger_health_response : Shape
swagger_health_response = wrapper "data" (struct_of (property "status" a_string no_more))

abbrev swagger_user_data : Shape
swagger_user_data = struct_of (
    property "id" a_string (
      property "email" a_string (
        property "name" a_string (
          property "role" a_string
            (property "is_active" a_bool (property "created_at" a_string no_more))))))

abbrev swagger_register_response : Shape
swagger_register_response = wrapper "data" (struct_of (property "user" swagger_user_data no_more))

abbrev swagger_login_data : Shape
swagger_login_data = struct_of (
    property "access_token" a_string (
      property "refresh_token" a_string (
        property "token_type" a_string
          (property "expires_in" an_int (property "user" swagger_user_data no_more)))))

abbrev swagger_login_response : Shape
swagger_login_response = wrapper "data" swagger_login_data

abbrev swagger_conversation_data : Shape
swagger_conversation_data = struct_of (
    property "id" a_string (
      property "user_id" a_string (
        property "title" a_string (
          property "status" a_string (
            property "agent_type" a_string (
              property "model" a_string (
                property "message_count" an_int (
                  property "total_tokens" an_int (
                    property "created_at" a_string (property "updated_at" a_string no_more))))))))))

abbrev swagger_message_data : Shape
swagger_message_data = struct_of (
    property "id" a_string (
      property "conversation_id" a_string (
        property "role" a_string (
          property "content" a_string
            (property "model" a_string (property "created_at" a_string no_more))))))

abbrev swagger_send_message_response : Shape
swagger_send_message_response = wrapper "data" (
    struct_of (
      property "conversation" swagger_conversation_data
        (property "message" swagger_message_data no_more)))

abbrev swagger_conversation_response : Shape
swagger_conversation_response = wrapper "data" swagger_conversation_data

abbrev swagger_conversation_list_response : Shape
swagger_conversation_list_response = wrapper "data" (list_of swagger_conversation_data)

abbrev swagger_approval_response : Shape
swagger_approval_response =
    wrapper "data" (struct_of (property "status" a_string (property "message" a_string no_more)))

abbrev swagger_chat_completion_choice : Shape
swagger_chat_completion_choice = struct_of (
    property "index" an_int
      (property "message" swagger_message_data (property "finish_reason" a_string no_more)))

abbrev swagger_chat_completion_response : Shape
swagger_chat_completion_response = wrapper "data" (
    struct_of (
      property "id" a_string (
        property "object" a_string (
          property "model" a_string
            (property "choices" (list_of swagger_chat_completion_choice) no_more)))))

abbrev swagger_tool_function : Shape
swagger_tool_function =
    struct_of (property "name" a_string (property "description" a_string no_more))

abbrev pub swagger_tool_data : Shape
swagger_tool_data =
    struct_of (property "type" a_string (property "function" swagger_tool_function no_more))

abbrev swagger_tools_response : Shape
swagger_tools_response =
    wrapper "data" (struct_of (property "tools" (list_of swagger_tool_data) no_more))

abbrev swagger_tool_result_response : Shape
swagger_tool_result_response = wrapper "data" anything

abbrev swagger_batch_result_response : Shape
swagger_batch_result_response =
    wrapper "data" (struct_of (property "results" (list_of anything) no_more))

-- The type of an endpoint's success: `@Success` in health.go:25 and 36, auth_handler.go:34, 64 and
-- 94, chat_handler.go:45, 113, 149, 189, 218 and 243, and tool_handler.go:31, 57 and 93. The type of
-- each `@Failure` is SwaggerErrorResponse.
abbrev documented_protected : Protected → Shape
documented_protected post_completions = swagger_chat_completion_response
documented_protected post_conversations = swagger_send_message_response
documented_protected get_conversations = swagger_conversation_list_response
documented_protected get_one_conversation = swagger_conversation_response
documented_protected post_messages = swagger_send_message_response
documented_protected post_approve = swagger_approval_response
documented_protected get_tools = swagger_tools_response
documented_protected post_execute = swagger_tool_result_response
documented_protected post_batch = swagger_batch_result_response

abbrev pub documented : Endpoint → Shape
documented get_health = swagger_health_response
documented get_ready = swagger_health_response
documented post_register = swagger_register_response
documented post_login = swagger_login_response
documented post_refresh = swagger_login_response
documented (protected e) = documented_protected e
