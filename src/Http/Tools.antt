-- ===== src/Http/Tools.antt =====
-- tool_handler.go. A goroutine of a batch writes its own element of the results; what the others
-- see of it is the call of its tool alone, so a goroutine is one step.
use go_agent_api.Base.{ℕ, zero, suc, Option, none, some, List, [], ◌∷◌, map}
use go_agent_api.Base.Exec.{Result, Exec, ok, err}
use go_agent_api.Entity.Any.{Any}
use go_agent_api.Entity.Message.{ToolCall}
use go_agent_api.Entity.Token.{Token}
use go_agent_api.Tools.Spec.{ToolSpec}
use go_agent_api.Tools.Registry.{Registry, History, list, list_for_token}
use go_agent_api.Tools.Execute.{ExecuteToolOutput, execute_tool}
use go_agent_api.Store.World.{World, outside}
use go_agent_api.Http.Request.{Request, Context}
use go_agent_api.Http.Response.{
  Handler, tools_listed, tool_result, batch_results, json, error, reply, on_decoded, error_with,
}
use go_agent_api.Http.App.{App, Draws}

abbrev pub listed : Registry → Option Token → List ToolSpec
listed walked none = list walked
listed walked (some token) = list_for_token token.allowed_tools walked

-- ListTools
unfoldable pub list_tools : Draws → Context → Handler World
list_tools draws context w = (json 200 (tools_listed (listed draws.walked context.token)), w)

-- an error leaves the result nil
abbrev pub result_of : Result ExecuteToolOutput → Option Any
result_of (ok o) = some o.result
result_of (err x) = none

-- `results[idx]` after the goroutine of index `idx`
unfoldable pub write_result : ℕ → Option Any → List (Option Any) → List (Option Any)
write_result idx r [] = []
write_result zero (some x) (y ∷ rest) = some x ∷ rest
write_result zero none (y ∷ rest) = y ∷ rest
write_result (suc idx) r (y ∷ rest) = y ∷ write_result idx r rest

-- the call that the loop gives to the goroutine of an index, where there is one
abbrev pub call_at : ℕ → List ToolCall → Option ToolCall
call_at idx [] = none
call_at zero (call ∷ rest) = some call
call_at (suc idx) (call ∷ rest) = call_at idx rest

-- make([]any, len(calls))
abbrev pub no_results : List ToolCall → List (Option Any)
no_results calls = map (λ call. none) calls

module _ (app : App) (draws : Draws) (context : Context) where
  -- the call of the use case
  unfoldable pub execute_call : ToolCall → Exec History ExecuteToolOutput
  execute_call call =
      execute_tool app.registry app.unmarshal draws.duration
        (record { tool_call = call; user = context.user; token = context.token })

  -- ExecuteTool
  unfoldable pub execute_one : Request → Handler World
  unfolding on_decoded reply execute_call
  execute_one request =
      on_decoded (error 400 "INVALID_REQUEST" "Invalid tool call format")
        (app.codec.tool_call request.body)
        λ req.
          reply 200 (λ (o : ExecuteToolOutput). tool_result o.result) (error_with 500 "TOOL_ERROR")
            (outside (execute_call req))

  abbrev pub run_goroutine :
      ℕ → Option ToolCall → List (Option Any) × History → List (Option Any) × History
  run_goroutine idx none (results, h) = (results, h)
  run_goroutine idx (some call) (results, h) =
      (write_result idx (result_of (execute_call call h).0) results, (execute_call call h).1)

  -- the goroutines, in the order of a schedule
  unfoldable pub run_goroutines :
      List ℕ → List ToolCall → List (Option Any) × History → List (Option Any) × History
  unfolding execute_call write_result
  run_goroutines [] calls state = state
  run_goroutines (idx ∷ rest) calls state =
      run_goroutines rest calls (run_goroutine idx (call_at idx calls) state)

  -- ExecuteToolBatch
  unfoldable pub execute_batch : Request → Handler World
  unfolding on_decoded run_goroutines
  execute_batch request =
      on_decoded (error 400 "INVALID_REQUEST" "Invalid tool calls format")
        (app.codec.tool_calls request.body)
        λ calls. λ w.
          let (results, h) = run_goroutines draws.schedule calls (no_results calls, w.history) in
          (json 200 (batch_results results), record w { history = h })
