-- ===== src/Tools/Spec.antt =====
-- pkg/toolspec/openai_format.go: tool definitions in OpenAI's format. A property's `Items` pointer
-- is a constructor, since the type holds a pointer to itself.
use go_agent_api.Base.{ℕ, String, Bool, true, false, Option, none, some, List, []}
use go_agent_api.Base.Table.{Map}
use go_agent_api.Base.Exec.{Result}
use go_agent_api.Entity.Any.{Any, Object}
use go_agent_api.Entity.Message.{ToolCall}

pub record Property : Type 0 where
  pub kind : String
  pub description : String
  pub choices : List String
  pub default : Any
  pub minimum : Option ℕ
  pub maximum : Option ℕ

pub data PropertySchema : Type 0 where
  plain : Property → PropertySchema
  with_items : Property → PropertySchema → PropertySchema

pub record JsonSchema : Type 0 where
  pub kind : String
  pub description : String
  pub properties : Map PropertySchema
  pub required : List String
  pub additional_properties : Option Bool

pub record Function : Type 0 where
  pub name : String
  pub description : String
  pub parameters : Option JsonSchema
  pub strict : Bool

pub record ToolSpec : Type 0 where
  pub kind : String
  pub function : Function

unfoldable pub new_tool : String → String → Option JsonSchema → ToolSpec
new_tool name description params = record {
  kind = "function";
  function = record { name = name; description = description; parameters = params; strict = false };
}

-- the write through the pointer `params`
abbrev closed : Option JsonSchema → Option JsonSchema
closed none = none
closed (some params) = some (record params { additional_properties = some false })

unfoldable pub new_strict_tool : String → String → Option JsonSchema → ToolSpec
new_strict_tool name description params = record {
  kind = "function";
  function = record {
    name = name;
    description = description;
    parameters = closed params;
    strict = true;
  };
}

-- A property with a type, a description and a default, as the literals of the tools have it.
abbrev pub text_property : String → String → Any → PropertySchema
text_property kind description default = plain (record {
  kind = kind;
  description = description;
  choices = [];
  default = default;
  minimum = none;
  maximum = none;
})

-- a tool's result for the model
pub record ToolMessage : Type 0 where
  pub role : String
  pub content : String
  pub tool_call_id : String
  pub name : String

-- ParseArguments; `unmarshal` is json.Unmarshal into a map.
unfoldable pub parse_arguments : (String → Result Object) → ToolCall → Result Object
parse_arguments unmarshal call = unmarshal call.function.arguments
