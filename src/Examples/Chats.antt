-- ===== src/Examples/Chats.antt =====
-- The theorems of the chat use cases at the small instance.
use go_agent_api.Base.{true, false, none, some, [], ◌∷◌, ◌≡◌, refl, ◌⊎◌, ◌<◌}
use go_agent_api.Base.Exec.{err, message, ◌>>=◌}
use go_agent_api.Entity.Conversation.{Conversation, new_conversation, request_approval}
use go_agent_api.Entity.Message.{new_user_message}
use go_agent_api.Tools.Registry.{get, list}
use go_agent_api.Base.Table.{lookup}
use go_agent_api.Workflow.State.{
  new_agent_state, add_assistant_message, add_tool_result, flush_tool_results,
}
use go_agent_api.Workflow.Nodes.{
  router_node, build_messages, take_choice, think_node, act_node, act_loop, act_round, run_tool,
  pause, observe_node, human_approval_node, response_node,
}
use go_agent_api.Workflow.Graph.{next_node, run_node, walk}
use go_agent_api.Workflow.Engine.{WorkflowOutput, run, start_state, output}
use go_agent_api.Store.World.{World, outside}
use go_agent_api.Store.Conversations
use go_agent_api.Store.Messages
use go_agent_api.Store.Rows.{found}
use go_agent_api.Chat.Ports.{Engine, chatbot}
use go_agent_api.Chat.SendMessage
use go_agent_api.Chat.SendMessage.{
  SendMessageInput, SendMessageOutput, UseCase, Fresh, execute, stateful, open_conversation,
  converse,
}
use go_agent_api.Chat.ApproveAction
use go_agent_api.Chat.ApproveAction.{ApproveInput}
use go_agent_api.Chat.Pausing.{pause-found, paused_conversation}
use go_agent_api.Chat.LostState.{paused_state_lost}
use go_agent_api.Base.{arith, String, List, length, All, ◌≤◌}
use go_agent_api.Chat.Listing.{IsShown, owned, list_conversations_ok}
use go_agent_api.Chat.Queries.{get_conversation, list_conversations, ListConversationsOutput}
use go_agent_api.Chat.Ownership.{foreign_conversation}
use go_agent_api.Examples.Fixtures.{env, graph, guarded_calls, world}

abbrev engine : Engine
engine = chatbot (env guarded_calls) (some (graph guarded_calls)) "r" 3

abbrev pub use_case : UseCase
use_case = record { llm = (env guarded_calls).chat; engine = engine; default_model = "m" }

abbrev pub fresh : Fresh
fresh = record { conversation = 5; user_message = 6; assistant_message = 7 }

abbrev opening : SendMessageInput
opening = record {
  conversation_id = none;
  user_id = 1;
  content = "add";
  agent_type = "";
  messages = [];
  model = "";
  tools = [];
}

abbrev paused_output : SendMessageOutput
paused_output = record { conversation_id = 5; message = none; response = "pending_approval" }

abbrev after : World
after = (execute use_case fresh 3 opening world).1

abbrev approval : ApproveInput
approval = record { conversation_id = 5; user_id = 1; approved = true; reason = "" }

paused_state_lost_example :
    ApproveAction.execute engine 8 4 approval after
    ≡ (err (message "no paused workflow state found in conversation"), after)
unfolding execute stateful open_conversation converse SendMessage.pause Conversations.create
    Conversations.update Conversations.update_workflow_state Messages.create
    Messages.find_by_conversation_id new_conversation request_approval new_user_message ◌>>=◌
    outside run walk start_state new_agent_state output run_node router_node think_node
    build_messages list take_choice add_assistant_message act_node act_loop act_round get lookup
    run_tool pause add_tool_result observe_node flush_tool_results human_approval_node response_node
    next_node
paused_state_lost_example =
    paused_state_lost use_case fresh 3 opening world after paused_output engine 8 4 approval refl
      refl refl refl refl refl refl

abbrev pub conversation : Conversation
conversation = new_conversation 5 0 1 "general"

abbrev pub holding : World
holding = record world { conversations = record { conv = conversation; deleted = false } ∷ [] }

abbrev asks : WorkflowOutput
asks = record {
  response = "";
  tokens_used = 3;
  tool_calls_count = 1;
  agent_type = "general";
  requires_approval = true;
  approval_reason = "why";
  paused_state_json = "json";
}

pause-found_example :
    ((SendMessage.pause 3 conversation asks holding).1.faults ≡ [])
    × (found conversation.id (SendMessage.pause 3 conversation asks holding).1
        ≡ some (paused_conversation 3 3 conversation asks conversation))
unfolding new_conversation
pause-found_example =
    pause-found 3 conversation asks holding (record { conv = conversation; deleted = false }) refl
      refl

abbrev mallory : SendMessageInput
mallory = record opening { conversation_id = some 5; user_id = 2 }

foreign_conversation_example :
    (get_conversation 5 2 holding ≡ (err (message "unauthorized access to conversation"), holding))
    × (execute use_case fresh 3 mallory holding
        ≡ (err (message "unauthorized access to conversation"), holding))
    × (ApproveAction.execute engine 8 3 (record approval { user_id = 2 }) holding
        ≡ (err (message "unauthorized access to conversation"), holding))
unfolding found new_conversation
foreign_conversation_example =
    foreign_conversation use_case fresh engine 8 3 mallory (record approval { user_id = 2 })
      conversation holding refl refl refl refl (omega arith) (omega arith)

abbrev as_stored : String → String → List Conversation → List Conversation
as_stored column direction cs = cs

abbrev listed : ListConversationsOutput
listed = record { conversations = conversation ∷ []; total = 1 }

list_conversations_ok_example :
    (length listed.conversations ≤ 50)
    × All (IsShown 1) listed.conversations
    × (listed.total ≡ owned 1 holding)
    × ((length listed.conversations ≡ listed.total)
        ⊎ ((length listed.conversations ≡ 50) × (50 < listed.total)))
unfolding new_conversation list_conversations Conversations.find_by_user_id
    Conversations.count_by_user_id ◌>>=◌
list_conversations_ok_example =
    list_conversations_ok as_stored 1 holding holding listed (λ column direction cs p. p)
      (λ column direction cs. refl) refl
