-- ===== src/Entity/ValueObjects.antt =====
-- internal/domain/valueobject: email.go, message_role.go and tool_call.go.
use Prim.Native.String.{◌++◌}
use go_agent_api.Base.{String, Bool, Option, none, some, str_eq, if◌then◌else◌, ◌||◌}
use go_agent_api.Base.Exec.{Result, ok, err, message}
use go_agent_api.Entity.Message.{ToolCall}

pub record Email : Type 0 where
  pub value : String

-- strings.ToLower, strings.TrimSpace, whether mail.ParseAddress accepts a text, and whether
-- json.Valid does; and strings.SplitN at the first "@", which is none where it gives one part
pub record Texts : Type 0 where
  pub to_lower : String → String
  pub trim_space : String → String
  pub is_address : String → Bool
  pub is_json : String → Bool
  pub split_at_sign : String → Option (String × String)

module _ (texts : Texts) where
  -- NewEmail
  unfoldable pub new_email : String → Result Email
  new_email given =
      let address = texts.trim_space (texts.to_lower given) in
      if str_eq address ""
      then err (message "email cannot be empty")
      else if texts.is_address address
      then ok (record { value = address })
      else err (message ("invalid email format: " ++ address))

  abbrev second_part : Option (String × String) → String
  second_part none = ""
  second_part (some (user, domain)) = domain

  -- Domain
  unfoldable pub email_domain : Email → String
  email_domain e = second_part (texts.split_at_sign e.value)

  -- NewToolCall
  unfoldable pub new_tool_call : String → String → String → Result ToolCall
  new_tool_call id name arguments =
      if str_eq id ""
      then err (message "tool call id cannot be empty")
      else if str_eq name ""
      then err (message "tool call function name cannot be empty")
      else if texts.is_json arguments
      then ok (record {
        id = id;
        kind = "function";
        function = record { name = name; arguments = arguments };
      })
      else err (message "tool call arguments must be valid JSON")

-- Equals
unfoldable pub same_email : Email → Email → Bool
same_email e f = str_eq e.value f.value

-- NewMessageRole: a role is its text
unfoldable pub new_message_role : String → Result String
new_message_role role =
    if str_eq role "system" || str_eq role "user" || str_eq role "assistant" || str_eq role "tool"
    then ok role
    else err (message ("invalid message role: " ++ role))

-- IsAssistant and IsTool
unfoldable pub is_assistant : String → Bool
is_assistant role = str_eq role "assistant"

unfoldable pub is_tool : String → Bool
is_tool role = str_eq role "tool"
