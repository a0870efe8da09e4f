-- ===== src/Workflow/Counting.antt =====
-- The counter of tool calls of chatbot_graph.go, and the last state of a walk.
use go_agent_api.Base.{
  ℕ, ◌+◌, ◌%◌, ◌^◌, true, false, none, Option-cases, inr, ◌≢◌, List, [], ◌∷◌, ◌≡◌, ◌⊎◌, inl, refl,
  ap, ◌∙◌, arith, length,
}
use mathlib.Core.Path.{subst}
use go_agent_api.Base.Exec.{ok}
use go_agent_api.Entity.Message.{ToolCall}
use go_agent_api.Tools.Registry.{History}
use go_agent_api.Workflow.State.{AgentState, flush_tool_results}
use go_agent_api.Workflow.Env.{Env}
use go_agent_api.Workflow.Nodes.{
  router_node, act_node, observe_node, human_approval_node, response_node,
}
use go_agent_api.Workflow.Graph.{
  Node, router, think, act, observe, human_approval, response, next_node, run_node, Walk, done,
  step, after_think, after_observe, after_approval,
}
use go_agent_api.Workflow.Walks.{Walk_induction, returned_as}
use go_agent_api.Workflow.Acting.{tool_runs, act_node-Acted}
use go_agent_api.Workflow.Calls.{tool_count, tool_count-onto, tool_runs-AllRuns, think_node-Thought}

-- The counter has moved on from `c` as the tool runs have from `d`, modulo 2 ^ 64.
abbrev Counted : ℕ → ℕ → AgentState → History → Type 0
Counted c d s h = (s.tool_calls_count + d) % 2 ^ 64 ≡ (c + tool_count h) % 2 ^ 64

pub Counted-act :
    (e : Env) (c d : ℕ) (s : AgentState) (h : History)
    → Counted c d s h
    → Counted c d (act_node e s h).0 (act_node e s h).1
Counted-act e c d s h q =
    let a = act_node-Acted e s h in
    let n : tool_count (act_node e s h).1 ≡ tool_count h + length (tool_runs e s.pending_tools) =
      ap tool_count a.history
      ∙ tool_count-onto (tool_runs e s.pending_tools) h (tool_runs-AllRuns e s.pending_tools) in
    omega (arith, n, a.counted)

Counted-run :
    (e : Env) (c d : ℕ) (n : Node) (s s' : AgentState) (h h' : History)
    → run_node e n s h ≡ (ok s', h')
    → Counted c d s h
    → Counted c d s' h'
unfolding run_node router_node observe_node flush_tool_results human_approval_node response_node
Counted-run e c d think s s' h h' p q =
    let t = think_node-Thought e s s' h h' p in omega (arith, t.no_tools, t.tool_calls_count)
Counted-run e c d act s s' h h' p q = returned_as (Counted c d) _ refl p (Counted-act e c d s h q)
Counted-run e c d _ s s' h h' p q = returned_as (Counted c d) _ refl p q

-- Along any walk of the graph the counter of tool calls grows by the number of tools that were
-- run, modulo 2 ^ 64.
pub tool_calls_count-Walk :
    (e : Env) (n : Node) (s t : AgentState) (h k : History)
    → Walk e t k n s h
    → (t.tool_calls_count + tool_count h) % 2 ^ 64 ≡ (s.tool_calls_count + tool_count k) % 2 ^ 64
tool_calls_count-Walk e n s t h k w =
    Walk_induction e (λ _. Counted s.tool_calls_count (tool_count h))
      (Counted-run e s.tool_calls_count (tool_count h)) w refl

module _ {e : Env} {t : AgentState} {k : History} where
  -- The node that a walk runs last before END, which itself runs nothing; `m` is the one run before
  -- the walk.
  abbrev pub last_node : {n : Node} {s : AgentState} {h : History} → Walk e t k n s h → Node → Node
  last_node (done p q) m = m
  last_node (step Node.finish r w) m = last_node w m
  last_node (step n r w) m = last_node w n

-- How a walk can end, after its last node: the state is what the response node makes of some state,
-- or it waits for an approval.
abbrev pub Ended : Node → AgentState → Type 0
Ended m s =
    ((m ≡ response) × (r : AgentState) × (s ≡ response_node r))
    ⊎ ((m ≡ human_approval) × (s.requires_approval ≡ true) × (s.is_approved ≡ none))

-- What a walk knows of the node that it ran last and of the state, at the node that comes next.
abbrev Near : Node → Node → AgentState → Type 0
Near m human_approval s = s.requires_approval ≡ true
Near m Node.finish s = Ended m s
Near m _ s = Unit

Near-think :
    (calls : List ToolCall) (s : AgentState) → Near think (after_think calls s.requires_approval) s
Near-think (tc ∷ calls) s = tt
Near-think [] s = ground arith

Near-observe : (s : AgentState) → Near observe (after_observe s.should_stop s.requires_approval) s
Near-observe s = ground arith

Near-approval :
    (s : AgentState)
    → s.requires_approval ≡ true
    → Near human_approval (after_approval s.is_approved) s
Near-approval s p = elim (Option-cases s.is_approved) [
  | inl q ↦ rw q (inr (refl, p, refl))
  | inr (true, q) ↦ rw q tt
  | inr (false, q) ↦ rw q tt
]

Near-run :
    (e : Env) (n m : Node) (s s' : AgentState) (h h' : History)
    → run_node e n s h ≡ (ok s', h')
    → n ≢ Node.finish
    → Near m n s
    → Near n (next_node n s') s'
unfolding run_node next_node
Near-run e router m s s' h h' p other q = tt
Near-run e think m s s' h h' p other q = Near-think s'.pending_tools s'
Near-run e act m s s' h h' p other q = tt
Near-run e observe m s s' h h' p other q = Near-observe s'
Near-run e human_approval m s s' h h' p other q =
    returned_as (λ t _. Near human_approval (after_approval t.is_approved) t) _ refl p
      (unfold human_approval_node in Near-approval s q)
Near-run e response m s s' h h' p other q =
    returned_as (λ t _. Ended response t) _ refl p (inl (refl, s, refl))
Near-run e Node.finish m s s' h h' p other q = absurd (other refl)

last_node-Ended :
    (e : Env) {t : AgentState} {k : History} {n : Node} {s : AgentState} {h : History}
    (w : Walk e t k n s h) (m : Node)
    → Near m n s
    → Ended (last_node w m) t
unfolding run_node next_node
last_node-Ended e (done p q) m b = subst (Ended m) p b
last_node-Ended e (step Node.finish {s} r w) m b =
    last_node-Ended e w m (returned_as (λ t _. Ended m t) _ refl r b)
last_node-Ended e (step n r w) m b = last_node-Ended e w n (Near-run e n m _ _ _ _ r (λ p. cc) b)

-- A walk of the graph from its start ends either with the response node as the last one that ran,
-- in the state that this node returns, or with the human approval node, in a state that asks for an
-- approval no one has given or refused.
pub Walk-ends :
    (e : Env) (s t : AgentState) (h k : History) (w : Walk e t k router s h)
    → ((last_node w router ≡ response) × (r : AgentState) × (t ≡ response_node r))
      ⊎ ((last_node w router ≡ human_approval)
          × (t.requires_approval ≡ true)
          × (t.is_approved ≡ none))
Walk-ends e s t h k w = last_node-Ended e w router tt
