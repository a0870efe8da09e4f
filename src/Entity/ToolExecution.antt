-- ===== src/Entity/ToolExecution.antt =====
-- internal/domain/entity/tool_execution.go
use go_agent_api.Base.{ℕ, String, Bool, false, Option, none, some, []}
use go_agent_api.Entity.Any.{Object}

pub data ToolExecutionStatus : Type 0 where
  pending running success failed cancelled requires_approval : ToolExecutionStatus

pub record ToolExecution : Type 0 where
  pub id : ℕ
  pub conversation_id : Option ℕ
  pub message_id : Option ℕ
  pub user_id : ℕ
  pub token_id : Option ℕ
  pub tool_name : String
  pub tool_call_id : String
  pub input : Object
  pub output : Object
  pub status : ToolExecutionStatus
  pub error_message : String
  pub duration_ms : Option ℕ
  pub queued_at : ℕ
  pub started_at : Option ℕ
  pub completed_at : Option ℕ
  pub needs_approval : Bool
  pub approved_by : Option ℕ
  pub approved_at : Option ℕ
  pub created_at : ℕ

unfoldable pub new_tool_execution : ℕ → ℕ → ℕ → String → String → Object → ToolExecution
new_tool_execution id now user_id tool_name tool_call_id input = record {
  id = id;
  conversation_id = none;
  message_id = none;
  user_id = user_id;
  token_id = none;
  tool_name = tool_name;
  tool_call_id = tool_call_id;
  input = input;
  output = [];
  status = pending;
  error_message = "";
  duration_ms = none;
  queued_at = now;
  started_at = none;
  completed_at = none;
  needs_approval = false;
  approved_by = none;
  approved_at = none;
  created_at = now;
}

unfoldable pub mark_running : ℕ → ToolExecution → ToolExecution
mark_running now e = record e { status = running; started_at = some now }

unfoldable pub mark_success : ℕ → Object → ℕ → ToolExecution → ToolExecution
mark_success now output duration_ms e = record e {
  status = success;
  output = output;
  duration_ms = some duration_ms;
  completed_at = some now;
}

unfoldable pub mark_failed : ℕ → String → ℕ → ToolExecution → ToolExecution
mark_failed now error_message duration_ms e = record e {
  status = failed;
  error_message = error_message;
  duration_ms = some duration_ms;
  completed_at = some now;
}
