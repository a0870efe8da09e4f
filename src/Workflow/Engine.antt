-- ===== src/Workflow/Engine.antt =====
-- chatbot_graph.go: Run and Resume of the workflow engine (internal/application/port).
use go_agent_api.Base.{
  ℕ, String, Bool, true, false, Option, none, some, List, str_eq, if◌then◌else◌,
}
use go_agent_api.Base.Exec.{
  Error, Result, Exec, ok, err, message, wrapped, wrap_result, wrap_error, fail, ◌>>=◌,
}
use go_agent_api.Base.Words.{float_pos}
use go_agent_api.Entity.Message.{ChatMessage}
use go_agent_api.Tools.Registry.{History}
use go_agent_api.Workflow.State.{AgentState, new_agent_state}
use go_agent_api.Workflow.Env.{Env}
use go_agent_api.Workflow.Nodes.{act_node, observe_node}
use go_agent_api.Workflow.Graph.{Runnable}

-- port.WorkflowInput
pub record WorkflowInput : Type 0 where
  pub conversation_id : ℕ
  pub user_id : ℕ
  pub content : String
  pub model : String
  pub messages : List ChatMessage
  pub temperature : ℕ

-- port.WorkflowOutput; a nil `PausedStateJSON` is the empty text
pub record WorkflowOutput : Type 0 where
  pub response : String
  pub tokens_used : ℕ
  pub tool_calls_count : ℕ
  pub agent_type : String
  pub requires_approval : Bool
  pub approval_reason : String
  pub paused_state_json : String

-- `&port.WorkflowOutput{...}` before the approval fields are set
abbrev pub output_of : AgentState → WorkflowOutput
output_of s = record {
  response = s.current_output;
  tokens_used = s.tokens_used;
  tool_calls_count = s.tool_calls_count;
  agent_type = s.current_agent;
  requires_approval = false;
  approval_reason = "";
  paused_state_json = "";
}

abbrev pub paused_output : AgentState → Result String → Result WorkflowOutput
paused_output s (err x) = err (wrapped "serialise paused state" x)
paused_output s (ok json) = ok (record (output_of s) {
  requires_approval = true;
  approval_reason = s.approval_reason;
  paused_state_json = json;
})

-- the tail that Run and Resume share
unfoldable pub output : Env → AgentState → Result WorkflowOutput
output e s = if s.requires_approval then paused_output s (e.state_to_json s) else ok (output_of s)

unfoldable pub start_state : String → ℕ → WorkflowInput → AgentState
start_state request_id now i =
    let s = new_agent_state request_id now i.conversation_id i.user_id i.content in
    record s {
      messages = i.messages;
      model = if str_eq i.model "" then s.model else i.model;
      temperature = if float_pos i.temperature then i.temperature else s.temperature;
    }

module _ (e : Env) where
  abbrev not_built : Error
  not_built = message "graph not built: call BuildRunnable first"

  -- `runnable` is none until BuildRunnable has succeeded.
  unfoldable pub run :
      Option (Runnable e) → String → ℕ → WorkflowInput → Exec History WorkflowOutput
  unfolding ◌>>=◌
  run none request_id now i = fail not_built
  run (some g) request_id now i = do
    s ← wrap_error "graph invoke" (g.invoke (start_state request_id now i))
    λ h. (output e s, h)

  -- a resume that was not approved
  unfoldable pub rejected : AgentState → WorkflowOutput
  rejected s = output_of (record s {
    current_output =
        if str_eq s.current_output ""
        then "The requested action was rejected."
        else s.current_output;
  })

  -- the pending calls run, then the graph goes on from the start
  unfoldable pub approved : Runnable e → AgentState → Exec History WorkflowOutput
  unfolding ◌>>=◌
  approved g s h =
      let (acted, h') = act_node e s h in
      let observed = observe_node acted in
      (wrap_error "resume graph invoke"
            (g.invoke (record observed { is_approved = none; requires_approval = false }))
          >>= λ t k. (output e t, k))
        h'

  abbrev pub resumed : Runnable e → Bool → AgentState → Exec History WorkflowOutput
  resumed g false s h = (ok (rejected s), h)
  resumed g true s h = approved g s h

  unfoldable pub resume : Option (Runnable e) → String → Bool → Exec History WorkflowOutput
  unfolding ◌>>=◌
  resume none json is_approved = fail not_built
  resume (some g) json is_approved = do
    s ← λ h. (wrap_result "deserialise paused state" (e.state_from_json json), h)
    resumed g is_approved (record s { is_approved = some is_approved; requires_approval = false })
