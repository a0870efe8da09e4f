-- ===== src/Workflow/Safety.antt =====
-- Which tools the walks of the graph of chatbot_graph.go run.
use go_agent_api.Base.{
  String, Bool, true, false, Option, none, some, List, [], ◌∷◌, ◌≡◌, refl, ap, sym, All,
}
use go_agent_api.Base.Exec.{Result, ok, err}
use go_agent_api.Entity.Any.{Object}
use go_agent_api.Entity.Message.{ToolCall}
use go_agent_api.Tools.Registry.{History, Effect, chatted, executed, Tool, get}
use go_agent_api.Workflow.State.{AgentState}
use go_agent_api.Workflow.Env.{Env}
use go_agent_api.Workflow.Nodes.{act_node, think_node}
use go_agent_api.Workflow.Graph.{
  Node, router, think, act, observe, human_approval, response, run_node, Walk,
}
use go_agent_api.Workflow.Walks.{Walk_induction}
use go_agent_api.Workflow.Acting.{
  Fate, fate, tool_runs, add_effect, onto, act_node-Acted, found_fate, tool_fate, args_fate,
}
use mathlib.Core.Path.{subst}

-- A tool that was run is registered under its name and does not require an approval.
abbrev pub IsAllowed : Env → Effect → Type 0
IsAllowed e (chatted req) = Unit
IsAllowed e (executed name args) =
    (t : Tool) × (get e.registry name ≡ some t) × (t.requires_approval ≡ false)

abbrev pub AllAllowed : Env → History → Type 0
AllAllowed e = All (IsAllowed e)

-- `calls` adds only allowed effects to allowed ones.
abbrev AddsAllowed : Env → String → Fate → List Effect → Type 0
AddsAllowed e name f later = AllAllowed e later → AllAllowed e (add_effect f name later)

found_allowed :
    (e : Env) (name : String) (args : Object) (t : Tool) (later : List Effect)
    → get e.registry name ≡ some t
    → (b : Bool) → t.requires_approval ≡ b
    → AddsAllowed e name (found_fate args b) later
found_allowed e name args t later found true p h = tt
found_allowed e name args t later found false p h = ((t, found, p), h)

tool_allowed :
    (e : Env) (name : String) (args : Object) (later : List Effect) (o : Option Tool)
    → get e.registry name ≡ o
    → AddsAllowed e name (tool_fate args o) later
tool_allowed e name args later none p h = h
tool_allowed e name args later (some t) p h =
    found_allowed e name args t later p t.requires_approval refl h

args_allowed :
    (e : Env) (name : String) (later : List Effect) (r : Result Object)
    → AddsAllowed e name (args_fate e name r) later
args_allowed e name later (err x) h = h
args_allowed e name later (ok args) h = tool_allowed e name args later (get e.registry name) refl h

tool_runs-allowed : (e : Env) (calls : List ToolCall) → AllAllowed e (tool_runs e calls)
unfolding tool_runs fate
tool_runs-allowed e [] = tt
tool_runs-allowed e (tc ∷ rest) =
    args_allowed e tc.function.name (tool_runs e rest) (e.unmarshal tc.function.arguments)
      (tool_runs-allowed e rest)

onto-allowed :
    (e : Env) (xs : List Effect) (h : History)
    → AllAllowed e xs
    → AllAllowed e h
    → AllAllowed e (onto xs h)
onto-allowed e [] h p q = q
onto-allowed e (x ∷ xs) h p q = onto-allowed e xs (x ∷ h) p.1 (p.0, q)

pub act_node-allowed :
    (e : Env) (s : AgentState) (h : History) → AllAllowed e h → AllAllowed e (act_node e s h).1
act_node-allowed e s h q =
    subst (AllAllowed e) (sym (act_node-Acted e s h).history)
      (onto-allowed e _ h (tool_runs-allowed e s.pending_tools) q)

-- The history that a node's run leaves.
pub history_of_run :
    (e : Env) (n : Node) (s : AgentState) (h : History)
    → AllAllowed e h
    → AllAllowed e (run_node e n s h).1
unfolding run_node think_node
history_of_run e router s h q = q
history_of_run e think s h q = (tt, q)
history_of_run e act s h q = act_node-allowed e s h q
history_of_run e observe s h q = q
history_of_run e human_approval s h q = q
history_of_run e response s h q = q
history_of_run e Node.finish s h q = q

run_node-allowed :
    (e : Env) (n : Node) (s s' : AgentState) (h h' : History)
    → run_node e n s h ≡ (ok s', h')
    → AllAllowed e h
    → AllAllowed e h'
run_node-allowed e n s s' h h' p q =
    subst (AllAllowed e) (ap (λ (x : Result AgentState × History). x.1) p)
      (history_of_run e n s h q)

-- Along any walk of the graph, every tool that is run is registered and requires no approval.
pub Walk-AllAllowed :
    (e : Env) (n : Node) (s t : AgentState) (h k : History)
    → Walk e t k n s h
    → AllAllowed e h
    → AllAllowed e k
Walk-AllAllowed e n s t h k w q =
    Walk_induction e (λ _ _ x. AllAllowed e x) (run_node-allowed e) w q
