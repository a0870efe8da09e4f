-- ===== src/Chat/Ports.antt =====
-- internal/application/port: the interfaces that the use cases call, and the workflow engine of
-- internal/infrastructure/eino as one of them.
use go_agent_api.Base.{ℕ, String, Bool, Option, ◌∷◌}
use go_agent_api.Base.Exec.{Result, Exec}
use go_agent_api.Tools.Registry.{ChatRequest, chatted, History}
use go_agent_api.Workflow.Env.{Env, ChatResponse}
use go_agent_api.Workflow.Graph.{Runnable}
use go_agent_api.Workflow.Engine.{WorkflowInput, WorkflowOutput, run, resume}

-- the interface WorkflowEngine
pub record Engine : Type 0 where
  pub run : WorkflowInput → Exec History WorkflowOutput
  pub resume : String → Bool → Exec History WorkflowOutput

-- ChatbotGraph implements it.
abbrev pub chatbot : (e : Env) → Option (Runnable e) → String → ℕ → Engine
chatbot e g request_id now = record { run = run e g request_id now; resume = resume e g }

-- the interface LLMProvider, its Chat
abbrev pub Provider : Type 0
Provider = History → ChatRequest → Result ChatResponse

abbrev pub call : Provider → ChatRequest → Exec History ChatResponse
call llm req h = (llm h req, chatted req ∷ h)
