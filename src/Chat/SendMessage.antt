-- ===== src/Chat/SendMessage.antt =====
-- send_message.go
use go_agent_api.Base.{
  ℕ, String, Bool, true, false, ◌==◌, Option, none, some, List, [], ◌∷◌, map, str_eq, if◌then◌else◌,
}
use go_agent_api.Base.Exec.{Exec, message, wrap_error, pure, fail, require, ◌>>=◌, ◌>>◌}
use go_agent_api.Entity.Any.{Any, null, text, object, field, end}
use go_agent_api.Entity.Conversation.{
  Conversation, new_conversation, request_approval, add_message_stats, set_title,
}
use go_agent_api.Entity.Message.{
  Message, ChatMessage, role_text, new_user_message, new_assistant_message,
}
use go_agent_api.Tools.Spec.{ToolSpec}
use go_agent_api.Tools.Registry.{ChatRequest}
use go_agent_api.Workflow.Env.{Choice}
use go_agent_api.Workflow.Engine.{WorkflowInput, WorkflowOutput}
use go_agent_api.Store.World.{World, outside}
use go_agent_api.Store.Conversations
use go_agent_api.Store.Messages
use go_agent_api.Chat.Ports.{Engine, Provider, call}

pub record SendMessageInput : Type 0 where
  pub conversation_id : Option ℕ
  pub user_id : ℕ
  pub content : String
  pub agent_type : String
  pub messages : List ChatMessage
  pub model : String
  pub tools : List ToolSpec

-- The conversation's id is uuid.Nil, 0, where the output leaves it out.
pub record SendMessageOutput : Type 0 where
  pub conversation_id : ℕ
  pub message : Option Message
  pub response : String

pub record UseCase : Type 0 where
  pub llm : Provider
  pub engine : Engine
  pub default_model : String

-- What uuid.New() gives to the entities that an execution creates.
pub record Fresh : Type 0 where
  pub conversation : ℕ
  pub user_message : ℕ
  pub assistant_message : ℕ

-- NewSendMessageUseCase
unfoldable pub new_send_message : Provider → Engine → String → UseCase
new_send_message llm engine default_model = record {
  llm = llm;
  engine = engine;
  default_model = if str_eq default_model "" then "gpt-4o-mini" else default_model;
}

abbrev pub model_of : UseCase → SendMessageInput → String
model_of uc input = if str_eq input.model "" then uc.default_model else input.model

abbrev pub chat_request : UseCase → SendMessageInput → ChatRequest
chat_request uc input = record {
  model = model_of uc input;
  messages = input.messages;
  tools = input.tools;
  tool_choice = null;
  temperature = 0;
  max_tokens = 0;
  stream = false;
  user = "";
}

abbrev first_choice : List Choice → Exec World SendMessageOutput
first_choice [] = fail (message "no response from LLM")
first_choice (c ∷ rest) =
    pure (record { conversation_id = 0; message = none; response = c.message.content })

unfoldable pub stateless : UseCase → SendMessageInput → Exec World SendMessageOutput
stateless uc input = do
  resp ← wrap_error "LLM call" (outside (call uc.llm (chat_request uc input)))
  first_choice resp.choices

unfoldable pub open_conversation : Fresh → ℕ → SendMessageInput → Option ℕ → Exec World Conversation
open_conversation fresh now input (some id) = do
  conv ← wrap_error "conversation not found" (Conversations.find_by_id id)
  require (conv.user_id == input.user_id) "unauthorized access to conversation"
  pure conv
open_conversation fresh now input none =
    let agent_type = if str_eq input.agent_type "" then "general" else input.agent_type in
    let conv = new_conversation fresh.conversation now input.user_id agent_type in
    do wrap_error "create conversation" (Conversations.create conv); pure conv

abbrev pub chat_message : Message → ChatMessage
chat_message m = record {
  role = role_text m.role;
  content = m.content;
  name = m.name;
  tool_calls = [];
  tool_call_id = m.tool_call_id;
}

abbrev pub workflow_input : UseCase → SendMessageInput → Conversation → List Message → WorkflowInput
workflow_input uc input conv messages = record {
  conversation_id = conv.id;
  user_id = input.user_id;
  content = input.content;
  model = model_of uc input;
  messages = map chat_message messages;
  temperature = conv.temperature;
}

-- the branch `if result.RequiresApproval`, of this use case and of the approval
unfoldable pub reason_value : String → Any
reason_value reason = object (field "reason" (text reason) end)

unfoldable pub pause : ℕ → Conversation → WorkflowOutput → Exec World SendMessageOutput
pause now conv result = do
  wrap_error "persist paused state" (
      Conversations.update_workflow_state conv.id
        (("paused_state", text result.paused_state_json) ∷ []))
  wrap_error "update conversation status" (
      Conversations.update
        (request_approval now result.agent_type (reason_value result.approval_reason) conv))
  pure (record { conversation_id = conv.id; message = none; response = "pending_approval" })

unfoldable pub answer :
    UseCase
    → Fresh
    → ℕ
    → SendMessageInput
    → Conversation
    → WorkflowOutput
    → Exec World SendMessageOutput
answer uc fresh now input conv result =
    let reply =
      new_assistant_message fresh.assistant_message now conv.id result.response []
        (model_of uc input) in
    do
      wrap_error "save assistant message" (Messages.create reply)
      wrap_error "update conversation" (
          Conversations.update (
            set_title now input.content
              (add_message_stats now result.tokens_used result.tool_calls_count conv)))
      pure (record { conversation_id = conv.id; message = some reply; response = result.response })

abbrev pub conclude :
    UseCase
    → Fresh
    → ℕ
    → SendMessageInput
    → Conversation
    → WorkflowOutput
    → Bool
    → Exec World SendMessageOutput
conclude uc fresh now input conv result true = pause now conv result
conclude uc fresh now input conv result false = answer uc fresh now input conv result

-- the user's message is stored, the history is read, and the workflow engine runs
unfoldable pub converse :
    UseCase → Fresh → ℕ → SendMessageInput → Conversation → Exec World SendMessageOutput
converse uc fresh now input conv = do
  wrap_error "save user message"
      (Messages.create (new_user_message fresh.user_message now conv.id input.content))
  messages ← wrap_error "get messages" (Messages.find_by_conversation_id conv.id)
  result ←
      wrap_error "workflow run" (outside (uc.engine.run (workflow_input uc input conv messages)))
  conclude uc fresh now input conv result result.requires_approval

unfoldable pub stateful : UseCase → Fresh → ℕ → SendMessageInput → Exec World SendMessageOutput
stateful uc fresh now input = do
  conv ← open_conversation fresh now input input.conversation_id
  converse uc fresh now input conv

abbrev pub dispatch :
    List ChatMessage → UseCase → Fresh → ℕ → SendMessageInput → Exec World SendMessageOutput
dispatch [] uc fresh now input = stateful uc fresh now input
dispatch (m ∷ rest) uc fresh now input = stateless uc input

-- Execute
unfoldable pub execute : UseCase → Fresh → ℕ → SendMessageInput → Exec World SendMessageOutput
execute uc fresh now input = dispatch input.messages uc fresh now input

-- the request of ExecuteStream, whose events are the provider's
unfoldable pub stream_request : UseCase → SendMessageInput → ChatRequest
stream_request uc input = record (chat_request uc input) { stream = true }
