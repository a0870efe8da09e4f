-- ===== src/Workflow/Progress.antt =====
-- How many nodes of the graph of chatbot_graph.go a run takes.
use go_agent_api.Base.{ℕ, zero, suc, ◌+◌, ◌-◌, ◌*◌, ◌^◌, ◌≤◌, ◌<◌, ◌≡◌, ◌⊎◌, inl, inr, refl, arith}
use go_agent_api.Base.Exec.{Error, Result, ok, err}
use go_agent_api.Tools.Registry.{History}
use go_agent_api.Workflow.State.{AgentState, flush_tool_results}
use go_agent_api.Workflow.Env.{Env}
use go_agent_api.Workflow.Nodes.{
  router_node, think_node, act_node, observe_node, human_approval_node, response_node,
}
use go_agent_api.Workflow.Graph.{
  Node, router, think, act, observe, human_approval, response, next_node, run_node, walk,
}
use go_agent_api.Workflow.Acting.{act_node-Acted}
use go_agent_api.Workflow.Calls.{Thought, think_node-Thought, InRounds, left}

-- The nodes that may still run from a node, given the rounds left after this one.
abbrev pub rank : Node → ℕ → ℕ
rank router d = 6 + 4 * d
rank think d = 5 + 4 * d
rank human_approval d = 4 + 4 * d
rank act d = 3 + 4 * d
rank observe d = 2 + 4 * d
rank response d = 1
rank Node.finish d = 0

record Fits (n : Node) (s : AgentState) : Type 0 where
  within : InRounds n s.iteration s.max_iterations
  small : s.max_iterations < 2 ^ 62

-- One node's run comes nearer to the end.
abbrev Nearer : Node → AgentState → AgentState → Type 0
Nearer n s s' = Fits (next_node n s') s' × (rank (next_node n s') (left s') < rank n (left s))

Nearer-think :
    (e : Env) (s s' : AgentState) (h h' : History)
    → Thought e s s' h h'
    → Fits think s
    → Nearer think s s'
unfolding next_node
Nearer-think e s s' h h' t p =
    (ground (arith, t.iteration, t.max_iterations), ground (arith, t.iteration, t.max_iterations))

Nearer-act : (e : Env) (s : AgentState) (h : History) → Fits act s → Nearer act s (act_node e s h).0
unfolding next_node
Nearer-act e s h p =
    let a = act_node-Acted e s h in
    (
      record {
        within = omega (arith, a.iteration, a.max_iterations);
        small = omega (arith, a.max_iterations);
      },
      omega (arith, a.iteration, a.max_iterations),
    )

Nearer-observe : (s : AgentState) → Fits observe s → Nearer observe s (observe_node s)
unfolding next_node observe_node flush_tool_results
Nearer-observe s p = (ground arith, ground arith)

Nearer-approval :
    (s : AgentState) → Fits human_approval s → Nearer human_approval s (human_approval_node s)
unfolding next_node human_approval_node
Nearer-approval s p = (ground arith, ground arith)

Nearer-router : (e : Env) (s : AgentState) → Fits router s → Nearer router s (router_node e s)
unfolding next_node router_node
Nearer-router e s p = (record { within = p.within; small = p.small }, omega arith)

Nearer-response : (s : AgentState) → Fits response s → Nearer response s (response_node s)
unfolding next_node response_node
Nearer-response s p = (record { within = tt; small = p.small }, omega arith)

-- The run ends, or a call of the model in it fails with the run's error.
abbrev Ends : Env → ℕ → Node → AgentState → History → Type 0
Ends e fuel n s h =
    ((t : AgentState) × (k : History) × (walk e fuel n s h ≡ (ok t, k)))
    ⊎ ((s' : AgentState) × (h' : History) × (x : Error) × ((think_node e s' h').0 ≡ err x)
        × ((walk e fuel n s h).0 ≡ err x))

think-Ends :
    (e : Env) (fuel : ℕ) (s : AgentState) (h : History)
    → ((s' : AgentState)
        → think_node e s h ≡ (ok s', (think_node e s h).1)
        → Ends e fuel (next_node think s') s' (think_node e s h).1)
    → Ends e (suc fuel) think s h
unfolding walk run_node
think-Ends e fuel s h later = go (think_node e s h).0 refl
  where
    go : (r : Result AgentState) → (think_node e s h).0 ≡ r → Ends e (suc fuel) think s h
    go (ok s') p = rw p (later s' (λ i. (p i, (think_node e s h).1)))
    go (err x) p = inr (s, h, x, p, rw p)

-- With more steps than the rank of its node a run ends, or fails as the model does.
walk-Ends :
    (e : Env) (fuel : ℕ) (n : Node) (s : AgentState) (h : History)
    → Fits n s
    → rank n (left s) < fuel
    → Ends e fuel n s h
unfolding walk run_node
walk-Ends e zero n s h p lt = absurd (omega arith)
walk-Ends e (suc fuel) Node.finish s h p lt = inl (s, h, refl)
walk-Ends e (suc fuel) router s h p lt =
    let (fits, less) = Nearer-router e s p in
    walk-Ends e fuel (next_node router (router_node e s)) (router_node e s) h fits (omega arith)
walk-Ends e (suc fuel) think s h p lt = think-Ends e fuel s h λ s' q.
    let (fits, less) = Nearer-think e s s' h _ (think_node-Thought e s s' h _ q) p in
    walk-Ends e fuel (next_node think s') s' _ fits (omega arith)
walk-Ends e (suc fuel) act s h p lt =
    let (fits, less) = Nearer-act e s h p in
    walk-Ends e fuel (next_node act (act_node e s h).0) (act_node e s h).0 (act_node e s h).1 fits
      (omega arith)
walk-Ends e (suc fuel) observe s h p lt =
    let (fits, less) = Nearer-observe s p in
    walk-Ends e fuel (next_node observe (observe_node s)) (observe_node s) h fits (omega arith)
walk-Ends e (suc fuel) human_approval s h p lt =
    let (fits, less) = Nearer-approval s p in
    walk-Ends e fuel (next_node human_approval (human_approval_node s)) (human_approval_node s) h
      fits (omega arith)
walk-Ends e (suc fuel) response s h p lt =
    let (fits, less) = Nearer-response s p in
    walk-Ends e fuel (next_node response (response_node s)) (response_node s) h fits (omega arith)

-- From its start, in a state whose rounds do not pass their limit, the graph ends within
-- 7 + 4 * (rounds left after this one) nodes, unless a call of the model fails.
pub walk_terminates :
    (e : Env) (fuel : ℕ) (s : AgentState) (h : History)
    → s.iteration ≤ s.max_iterations
    → s.max_iterations < 2 ^ 62
    → 6 + 4 * (s.max_iterations - suc s.iteration) < fuel
    → ((t : AgentState) × (k : History) × (walk e fuel router s h ≡ (ok t, k)))
      ⊎ ((s' : AgentState) × (h' : History) × (x : Error) × ((think_node e s' h').0 ≡ err x)
          × ((walk e fuel router s h).0 ≡ err x))
walk_terminates e fuel s h within small enough =
    walk-Ends e fuel router s h (record { within = within; small = small }) enough
