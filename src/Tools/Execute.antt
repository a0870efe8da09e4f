-- ===== src/Tools/Execute.antt =====
-- internal/application/usecase/tool/execute_tool.go
use Prim.Native.String.{◌++◌}
use go_agent_api.Base.{ℕ, String, Bool, true, Option, none, some, ◌∷◌}
use go_agent_api.Base.Exec.{
  Error, Result, Exec, message, wrap_error, pure, fail, require, ◌>>=◌, ◌>>◌,
}
use go_agent_api.Entity.Any.{Any, Object}
use go_agent_api.Entity.Message.{ToolCall}
use go_agent_api.Entity.User.{User}
use go_agent_api.Entity.Token.{Token, can_use_tool}
use go_agent_api.Tools.Registry.{History, executed, Tool, Registry, get}

pub record ExecuteToolInput : Type 0 where
  pub tool_call : ToolCall
  pub user : Option User
  pub token : Option Token

pub record ExecuteToolOutput : Type 0 where
  pub tool_call_id : String
  pub tool_name : String
  pub result : Any
  pub duration : ℕ

-- input.Token == nil || input.Token.CanUseTool(name)
unfoldable pub is_permitted : Option Token → String → Bool
is_permitted none name = true
is_permitted (some token) name = can_use_tool token name

abbrev pub found_tool : String → Option Tool → Exec History Tool
found_tool name none = fail (message ("tool not found: " ++ name))
found_tool name (some t) = pure t

abbrev pub validated : Option Error → Exec History (Unit {0})
validated none = pure tt
validated (some x) = fail x

-- t.Execute(ctx, args), which the history keeps whether it fails or not
unfoldable pub call_tool : String → Tool → Object → Exec History Any
call_tool name t args h = (t.execute h args, executed name args ∷ h)

-- Execute; `unmarshal` is json.Unmarshal into a map, `duration` is what time.Since gives.
unfoldable pub execute_tool :
    Registry → (String → Result Object) → ℕ → ExecuteToolInput → Exec History ExecuteToolOutput
execute_tool r unmarshal duration input =
    let name = input.tool_call.function.name in
    do
      require (is_permitted input.token name) ("token does not have access to tool: " ++ name)
      t ← found_tool name (get r name)
      args ← wrap_error "parse arguments" (λ h. (unmarshal input.tool_call.function.arguments, h))
      wrap_error "validate arguments" (validated (t.validate args))
      result ← wrap_error ("execute tool " ++ name) (call_tool name t args)
      pure (record {
        tool_call_id = input.tool_call.id;
        tool_name = name;
        result = result;
        duration = duration;
      })
