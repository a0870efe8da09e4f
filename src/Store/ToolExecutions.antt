-- ===== src/Store/ToolExecutions.antt =====
-- tool_execution_repository.go
use go_agent_api.Base.{
  ℕ, String, Bool, false, Option, none, some, List, [], ◌∷◌, ◌++◌, map, ◌==◌, first, any, select,
  if◌then◌else◌,
}
use go_agent_api.Base.Exec.{Exec}
use go_agent_api.Entity.Any.{Object}
use go_agent_api.Entity.ToolExecution.{ToolExecution, ToolExecutionStatus}
use go_agent_api.Store.World.{World, read_one, run, writes, refused_if, gets}

abbrev pub has_id : ℕ → ToolExecution → Bool
has_id id e = e.id == id

abbrev in_conversation : ℕ → Option ℕ → Bool
in_conversation id none = false
in_conversation id (some c) = c == id

unfoldable pub create : ToolExecution → Exec World (Unit {0})
unfolding run
create e = run "create tool execution" (
    refused_if (λ w. any (has_id e.id) w.executions)
      (λ w. record w { executions = w.executions ++ e ∷ [] }))

unfoldable pub find_by_id : ℕ → Exec World ToolExecution
unfolding read_one
find_by_id id =
    read_one "find tool execution by id" "tool execution not found"
      (λ w. first (has_id id) w.executions)

-- `ordered` is the order by `created_at`, oldest first.
unfoldable pub find_by_conversation_id :
    (List ToolExecution → List ToolExecution) → ℕ → Exec World (List ToolExecution)
unfolding run
find_by_conversation_id ordered conversation_id = run "find tool executions by conversation id" (
    gets
      (λ w. ordered (select (λ e. in_conversation conversation_id e.conversation_id) w.executions)))

-- the columns that UpdateStatus sets
abbrev status_row :
    ℕ → ℕ → ToolExecutionStatus → Object → String → Option ℕ → ToolExecution → ToolExecution
status_row now id status output error_message duration_ms e =
    if has_id id e
    then record e {
      status = status;
      output = output;
      error_message = error_message;
      duration_ms = duration_ms;
      completed_at = some now;
    }
    else e

unfoldable pub update_status :
    ℕ → ToolExecutionStatus → Object → String → Option ℕ → Exec World (Unit {0})
unfolding run
update_status id status output error_message duration_ms = run "update tool execution status" (
    writes (λ w. record w {
      executions = map (status_row w.now id status output error_message duration_ms) w.executions;
    }))
