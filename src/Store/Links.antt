-- ===== src/Store/Links.antt =====
-- ON DELETE SET NULL of the table `tool_executions`.
use go_agent_api.Base.{ℕ, Bool, Option, none, some, List, map, if◌then◌else◌}
use go_agent_api.Entity.ToolExecution.{ToolExecution}

abbrev cleared : (ℕ → Bool) → Option ℕ → Option ℕ
cleared is_gone none = none
cleared is_gone (some id) = if is_gone id then none else some id

abbrev pub clear_conversations : (ℕ → Bool) → List ToolExecution → List ToolExecution
clear_conversations is_gone =
    map (λ (e : ToolExecution). record e { conversation_id = cleared is_gone e.conversation_id })

abbrev pub clear_messages : (ℕ → Bool) → List ToolExecution → List ToolExecution
clear_messages is_gone =
    map (λ (e : ToolExecution). record e { message_id = cleared is_gone e.message_id })

abbrev pub clear_tokens : (ℕ → Bool) → List ToolExecution → List ToolExecution
clear_tokens is_gone =
    map (λ (e : ToolExecution). record e { token_id = cleared is_gone e.token_id })
