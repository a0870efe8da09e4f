-- ===== src/Chat/ApproveAction.antt =====
-- approve_action.go
use go_agent_api.Base.{
  ℕ, String, Bool, true, false, ◌==◌, Option, none, some, [], ◌∷◌, str_eq, if◌then◌else◌,
}
use go_agent_api.Base.Exec.{Exec, message, wrap_error, pure, fail, require, ◌>>=◌, ◌>>◌}
use go_agent_api.Base.Table.{lookup}
use go_agent_api.Entity.Any.{Any, text}
use go_agent_api.Entity.Conversation.{
  Conversation, is_pending_approval, request_approval, approve, reject, add_message_stats,
}
use go_agent_api.Entity.Message.{new_assistant_message}
use go_agent_api.Workflow.Engine.{WorkflowOutput}
use go_agent_api.Store.World.{World, outside}
use go_agent_api.Store.Conversations
use go_agent_api.Store.Messages
use go_agent_api.Chat.Ports.{Engine}
use go_agent_api.Chat.SendMessage.{reason_value}

pub record ApproveInput : Type 0 where
  pub conversation_id : ℕ
  pub user_id : ℕ
  pub approved : Bool
  pub reason : String

pub record ApproveOutput : Type 0 where
  pub conversation : Conversation
  pub status : String
  pub response : String

-- `stateRaw.(string)`
abbrev pub state_text : Option Any → Exec World String
state_text none = fail (message "no paused workflow state found in conversation")
state_text (some (text json)) = pure json
state_text (some _) = fail (message "invalid paused workflow state format")

-- the assistant's response is stored where there is one; `id` is what uuid.New() gives
unfoldable pub store_response : ℕ → ℕ → Conversation → String → Exec World (Unit {0})
store_response id now conv response =
    if str_eq response ""
    then pure tt
    else wrap_error "save assistant message"
        (Messages.create (new_assistant_message id now conv.id response [] ""))

abbrev pub decided : ℕ → ApproveInput → Bool → Conversation → Conversation
decided now input true conv = approve now conv
decided now input false conv = reject now input.reason conv

-- the workflow paused again, or the decision is recorded
unfoldable pub settle :
    ℕ → ApproveInput → Conversation → WorkflowOutput → Bool → Exec World Conversation
settle now input conv result true = do
  wrap_error "persist next paused state" (
      Conversations.update_workflow_state conv.id
        (("paused_state", text result.paused_state_json) ∷ []))
  pure (request_approval now result.agent_type (reason_value result.approval_reason) conv)
settle now input conv result false = pure (decided now input input.approved conv)

abbrev pub status_of : Bool → Bool → String
status_of true approved = "pending_approval"
status_of false true = "approved"
status_of false false = "rejected"

-- what follows the resume
unfoldable pub record_result :
    ℕ → ℕ → ApproveInput → Conversation → WorkflowOutput → Exec World ApproveOutput
record_result id now input conv result = do
  store_response id now conv result.response
  conv' ←
      settle now input (add_message_stats now result.tokens_used result.tool_calls_count conv)
        result result.requires_approval
  wrap_error "update conversation" (Conversations.update conv')
  pure (record {
    conversation = conv';
    status = status_of result.requires_approval input.approved;
    response = result.response;
  })

-- Execute
unfoldable pub execute : Engine → ℕ → ℕ → ApproveInput → Exec World ApproveOutput
execute engine id now input = do
  conv ← wrap_error "conversation not found" (Conversations.find_by_id input.conversation_id)
  require (conv.user_id == input.user_id) "unauthorized access to conversation"
  require (is_pending_approval conv) "conversation is not pending approval"
  json ← state_text (lookup "paused_state" conv.workflow_state)
  result ← wrap_error "resume workflow" (outside (engine.resume json input.approved))
  record_result id now input conv result
