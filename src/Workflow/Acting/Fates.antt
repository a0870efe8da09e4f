-- ===== src/Workflow/Acting/Fates.antt =====
-- What `actNode` does with each pending call, told from the calls alone.
use go_agent_api.Base.{
  String, length, Bool, true, false, Option, none, some, List, [], ◌∷◌, ◌++◌, map, ◌≡◌, ◌+◌, ◌%◌,
  ◌^◌,
}
use go_agent_api.Base.Exec.{Result, ok, err}
use go_agent_api.Entity.Any.{Object}
use go_agent_api.Entity.Message.{ToolCall, ChatMessage}
use go_agent_api.Tools.Registry.{History, Effect, executed, Tool, get}
use go_agent_api.Workflow.State.{AgentState}
use go_agent_api.Workflow.Env.{Env}

-- What becomes of one call: an error reply, a pause, or a run of the tool.
pub data Fate : Type 0 where
  replies : Fate
  pauses : Fate
  runs : Object → Fate

abbrev pub found_fate : Object → Bool → Fate
found_fate args true = pauses
found_fate args false = runs args

abbrev pub tool_fate : Object → Option Tool → Fate
tool_fate args none = replies
tool_fate args (some t) = found_fate args t.requires_approval

abbrev pub args_fate : Env → String → Result Object → Fate
args_fate e name (err x) = replies
args_fate e name (ok args) = tool_fate args (get e.registry name)

unfoldable pub fate : Env → ToolCall → Fate
fate e tc = args_fate e tc.function.name (e.unmarshal tc.function.arguments)

abbrev pub add_effect : Fate → String → List Effect → List Effect
add_effect (runs args) name rest = executed name args ∷ rest
add_effect replies name rest = rest
add_effect pauses name rest = []

-- The tools that a list of calls runs, in order: up to the first call that needs an approval.
unfoldable pub tool_runs : Env → List ToolCall → List Effect
tool_runs e [] = []
tool_runs e (tc ∷ rest) = add_effect (fate e tc) tc.function.name (tool_runs e rest)

abbrev pub add_pause : Fate → Bool → Bool
add_pause pauses later = true
add_pause replies later = later
add_pause (runs args) later = later

-- Whether some call needs an approval.
unfoldable pub has_pause : Env → List ToolCall → Bool
has_pause e [] = false
has_pause e (tc ∷ rest) = add_pause (fate e tc) (has_pause e rest)

abbrev pub add_answer : Fate → ToolCall → List ToolCall → List ToolCall
add_answer pauses tc later = []
add_answer replies tc later = tc ∷ later
add_answer (runs args) tc later = tc ∷ later

-- The calls before the first one that needs an approval.
unfoldable pub answered : Env → List ToolCall → List ToolCall
answered e [] = []
answered e (tc ∷ rest) = add_answer (fate e tc) tc (answered e rest)

abbrev pub onto : List Effect → History → History
onto [] h = h
onto (x ∷ xs) h = onto xs (x ∷ h)

abbrev pub call_ids : List ToolCall → List String
call_ids = map (λ tc. tc.id)

abbrev pub reply_ids : List ChatMessage → List String
reply_ids = map (λ m. m.tool_call_id)

-- What a run of the loop has done: the tools that it ran, the calls that it answered, and whether
-- it paused; all else but the approval's fields is as it was.
pub record Acted (effects : List Effect) (ids : List String) (paused : Bool) (s : AgentState)
    (h : History) (out : AgentState × History) : Type 0 where
  pub history : out.1 ≡ onto effects h
  pub replies_in_order : reply_ids out.0.tool_results ≡ reply_ids s.tool_results ++ ids
  pub pauses_once :
      paused ≡ true → (out.0.requires_approval ≡ true) × (out.0.pending_tools ≡ s.pending_tools)
  pub clears_pending :
      paused ≡ false → (out.0.requires_approval ≡ s.requires_approval) × (out.0.pending_tools ≡ [])
  pub counted : out.0.tool_calls_count % 2 ^ 64 ≡ (s.tool_calls_count + length effects) % 2 ^ 64
  pub messages : out.0.messages ≡ s.messages
  pub iteration : out.0.iteration ≡ s.iteration
  pub max_iterations : out.0.max_iterations ≡ s.max_iterations
  pub is_approved : out.0.is_approved ≡ s.is_approved
  pub should_stop : out.0.should_stop ≡ s.should_stop
  pub tokens_used : out.0.tokens_used ≡ s.tokens_used
