-- ===== src/Tools/Registry.antt =====
-- internal/application/usecase/tool/tool_registry.go. The registry is the map under its lock; each
-- operation holds the lock, so an operation is one step. The order in which `range` walks a map is
-- the argument `walked`, the same entries in some order.
use go_agent_api.Base.{
  ℕ, String, Bool, true, false, ◌||◌, Option, List, [], ◌∷◌, map, str_eq, if◌then◌else◌,
}
use go_agent_api.Base.Exec.{Error, Result}
use go_agent_api.Base.Table.{Map, lookup, insert}
use go_agent_api.Entity.Any.{Any, Object}
use go_agent_api.Entity.Message.{ChatMessage}
use go_agent_api.Tools.Spec.{ToolSpec}

-- port.ChatRequest
pub record ChatRequest : Type 0 where
  pub model : String
  pub messages : List ChatMessage
  pub tools : List ToolSpec
  pub tool_choice : Any
  pub temperature : ℕ
  pub max_tokens : ℕ
  pub stream : Bool
  pub user : String

-- The calls that the program makes to the world outside, newest first. What a call returns may
-- depend on all calls before it.
pub data Effect : Type 0 where
  chatted : ChatRequest → Effect
  executed : String → Object → Effect

abbrev pub History : Type 0
History = List Effect

-- the interface Tool
pub record Tool : Type 0 where
  pub name : String
  pub description : String
  pub definition : ToolSpec
  pub execute : History → Object → Result Any
  pub requires_approval : Bool
  pub validate : Object → Option Error

abbrev pub Registry : Type 0
Registry = Map Tool

-- NewToolRegistry
abbrev pub empty : Registry
empty = []

unfoldable pub register : Tool → Registry → Registry
register tool r = insert tool.name tool r

unfoldable pub register_all : List Tool → Registry → Registry
register_all [] r = r
register_all (tool ∷ tools) r = register_all tools (register tool r)

unfoldable pub get : Registry → String → Option Tool
get r name = lookup name r

abbrev pub entry_definition : String × Tool → ToolSpec
entry_definition (name, tool) = tool.definition

abbrev pub entry_name : String × Tool → String
entry_name (name, tool) = name

-- List
unfoldable pub list : Registry → List ToolSpec
list walked = map entry_definition walked

unfoldable pub list_names : Registry → List String
list_names walked = map entry_name walked

-- `allowedMap[name]`, and the early return at "*"
unfoldable pub is_wildcard : List String → Bool
is_wildcard [] = false
is_wildcard (t ∷ rest) = if str_eq t "*" then true else is_wildcard rest

unfoldable pub is_listed : List String → String → Bool
is_listed [] name = false
is_listed (t ∷ rest) name = str_eq t name || is_listed rest name

unfoldable pub definitions_of : List String → Registry → List ToolSpec
definitions_of allowed [] = []
definitions_of allowed ((name, tool) ∷ rest) =
    let others = definitions_of allowed rest in
    if is_listed allowed name then tool.definition ∷ others else others

unfoldable pub list_for_token : List String → Registry → List ToolSpec
unfolding list is_wildcard is_listed definitions_of
list_for_token [] walked = list walked
list_for_token (t ∷ rest) walked =
    if is_wildcard (t ∷ rest) then list walked else definitions_of (t ∷ rest) walked
