-- ===== src/Workflow/Graph.antt =====
-- chatbot_graph.go: the edges and branches of `build`, one node's run, and the walks of the graph.
-- The engine that runs a compiled graph is not under the repository: `Runnable` is what it gives.
use go_agent_api.Base.{ℕ, zero, suc, Bool, true, false, Option, none, some, List, [], ◌∷◌, ◌≡◌}
use go_agent_api.Base.Exec.{Exec, ok, err, external, continue}
use go_agent_api.Entity.Message.{ToolCall}
use go_agent_api.Tools.Registry.{History}
use go_agent_api.Workflow.State.{AgentState}
use go_agent_api.Workflow.Env.{Env}
use go_agent_api.Workflow.Nodes.{
  router_node, think_node, act_node, observe_node, human_approval_node, response_node,
}

-- The node names of the graph; `finish` is compose.END.
pub data Node : Type 0 where
  router think act observe human_approval response finish : Node

abbrev pub after_think : List ToolCall → Bool → Node
after_think (tc ∷ rest) requires_approval = act
after_think [] true = human_approval
after_think [] false = response

unfoldable pub route_after_think : AgentState → Node
route_after_think s = after_think s.pending_tools s.requires_approval

abbrev pub after_observe : Bool → Bool → Node
after_observe true requires_approval = response
after_observe false true = human_approval
after_observe false false = think

unfoldable pub route_after_observe : AgentState → Node
route_after_observe s = after_observe s.should_stop s.requires_approval

abbrev pub after_approval : Option Bool → Node
after_approval none = finish
after_approval (some true) = act
after_approval (some false) = response

unfoldable pub route_after_approval : AgentState → Node
route_after_approval s = after_approval s.is_approved

-- the edges and branches that `build` adds
unfoldable pub next_node : Node → AgentState → Node
unfolding route_after_think route_after_observe route_after_approval
next_node router s = think
next_node think s = route_after_think s
next_node act s = observe
next_node observe s = route_after_observe s
next_node human_approval s = route_after_approval s
next_node response s = finish
next_node finish s = finish

-- the nodes that `build` adds
unfoldable pub run_node : Env → Node → AgentState → Exec History AgentState
run_node e router s h = (ok (router_node e s), h)
run_node e think s h = think_node e s h
run_node e act s h = (ok (act_node e s h).0, (act_node e s h).1)
run_node e observe s h = (ok (observe_node s), h)
run_node e human_approval s h = (ok (human_approval_node s), h)
run_node e response s h = (ok (response_node s), h)
run_node e finish s h = (ok s, h)

-- From a node about to run, in a state and a history, the graph reaches END in state `t` with
-- history `k`.
pub data Walk (e : Env) (t : AgentState) (k : History) : Node → AgentState → History → Type 0 where
  done : {s : AgentState} {h : History} → s ≡ t → h ≡ k → Walk e t k finish s h
  step :
      (n : Node) {s s' : AgentState} {h h' : History}
      → run_node e n s h ≡ (ok s', h')
      → Walk e t k (next_node n s') s' h'
      → Walk e t k n s h

-- compose.Runnable, of the graph that `build` compiles. What it relies on of the engine: an invoke
-- that succeeds has followed the edges and branches from START to END.
pub record Runnable (e : Env) : Type 0 where
  pub invoke : AgentState → Exec History AgentState
  pub follows : (s t : AgentState) (h k : History) → invoke s h ≡ (ok t, k) → Walk e t k router s h

-- A run of the graph for at most so many nodes.
unfoldable pub walk : Env → ℕ → Node → AgentState → Exec History AgentState
walk e zero n s h = (err (external "exceeds max steps"), h)
walk e (suc fuel) finish s h = (ok s, h)
walk e (suc fuel) n s h =
    continue (run_node e n s h).0 (λ s'. walk e fuel (next_node n s') s') (run_node e n s h).1
