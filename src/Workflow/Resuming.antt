-- ===== src/Workflow/Resuming.antt =====
-- What Run and Resume return, and what an approval does to the pending calls.
use go_agent_api.Base.{
  ℕ, String, Bool, true, false, none, some, List, [], ◌∷◌, ◌++◌, ◌≡◌, ◌≢◌, refl, ap, ◌∙◌, sym,
  arith, eq_iff, if◌then◌else◌,
}
use mathlib.Core.Path.{subst, ap₂}
use mathlib.Core.List.{map-append}
use go_agent_api.Base.Exec.{Result, ok, err, wrap_result, wrapped, continue}
use go_agent_api.Entity.Message.{ToolCall}
use go_agent_api.Tools.Registry.{History}
use go_agent_api.Workflow.State.{AgentState, flush_tool_results}
use go_agent_api.Workflow.Env.{Env}
use go_agent_api.Workflow.Nodes.{act_node, observe_node}
use go_agent_api.Workflow.Graph.{router, Walk, Runnable}
use go_agent_api.Workflow.Acting.{
  tool_runs, has_pause, answered, onto, call_ids, reply_ids, act_node-Acted,
}
use go_agent_api.Workflow.Engine.{
  WorkflowInput, WorkflowOutput, output_of, paused_output, output, start_state, run, rejected,
  approved, resumed, resume,
}
use go_agent_api.Workflow.Safety.{AllAllowed, Walk-AllAllowed, act_node-allowed}

-- The state from which an approved resume enters the graph.
abbrev pub reentry : Env → AgentState → History → AgentState
reentry e s h =
    let observed = observe_node (act_node e s h).0 in
    record observed { is_approved = none; requires_approval = false }

abbrev wrapped_output : Env → Result AgentState → Result WorkflowOutput
wrapped_output e (ok t) = output e t
wrapped_output e (err x) = err (wrapped "resume graph invoke" x)

approved_ok :
    (e : Env) (r : Result AgentState) (k : History) (o : WorkflowOutput) (k' : History)
    → (continue (wrap_result "resume graph invoke" r) (λ t k. (output e t, k)) k) ≡ (ok o, k')
    → (t : AgentState) × (r ≡ ok t) × (k ≡ k') × (output e t ≡ ok o)
approved_ok e (ok t) k o k' p = (t, refl, ground (arith, p), ground (arith, p))
approved_ok e (err x) k o k' p = ground arith

pair_of {ℓ} : {A B : Type ℓ} (x : A × B) {a : A} {b : B} → x.0 ≡ a → x.1 ≡ b → x ≡ (a, b)
pair_of (r, k) p q i = (p i, q i)

-- An approved resume that succeeds has run the pending calls and then followed the graph.
pub approved-Walk :
    (e : Env) (g : Runnable e) (s : AgentState) (h k : History) (o : WorkflowOutput)
    → approved e g s h ≡ (ok o, k)
    → (t : AgentState) × Walk e t k router (reentry e s h) (act_node e s h).1 × (output e t ≡ ok o)
unfolding approved
approved-Walk e g s h k o p =
    let (t, a, b, c) = approved_ok e _ _ o k p in
    (t, g.follows (reentry e s h) t (act_node e s h).1 k (pair_of _ a b), c)

resumed-AllAllowed :
    (e : Env) (g : Runnable e) (b : Bool) (s : AgentState) (h k : History) (o : WorkflowOutput)
    → resumed e g b s h ≡ (ok o, k)
    → AllAllowed e h
    → AllAllowed e k
resumed-AllAllowed e g false s h k o p q =
    subst (AllAllowed e) (ap (λ (x : Result WorkflowOutput × History). x.1) p) q
resumed-AllAllowed e g true s h k o p q =
    let (t, w, out) = approved-Walk e g s h k o p in
    Walk-AllAllowed e router _ t _ k w (act_node-allowed e s h q)

loaded_ok :
    (e : Env) (g : Runnable e) (b : Bool) (r : Result AgentState) (h k : History)
    (o : WorkflowOutput)
    → continue
        (wrap_result "deserialise paused state" r)
        (λ s. resumed e g b (record s { is_approved = some b; requires_approval = false }))
        h
      ≡ (ok o, k)
    → (s : AgentState) × (r ≡ ok s)
      × (resumed e g b (record s { is_approved = some b; requires_approval = false }) h ≡ (ok o, k))
loaded_ok e g b (ok s) h k o p = (s, refl, p)
loaded_ok e g b (err x) h k o p = ground arith

-- A resume that succeeds, approved or not, has run only tools that require no approval: what a
-- human approves is not run by it.
pub resume-AllAllowed :
    (e : Env) (g : Runnable e) (json : String) (b : Bool) (h k : History) (o : WorkflowOutput)
    → resume e (some g) json b h ≡ (ok o, k)
    → AllAllowed e h
    → AllAllowed e k
unfolding resume
resume-AllAllowed e g json b h k o p q =
    let (s, loaded, rest) = loaded_ok e g b (e.state_from_json json) h k o p in
    resumed-AllAllowed e g b _ h k o rest q

run_ok :
    (e : Env) (r : Result AgentState) (k : History) (o : WorkflowOutput) (k' : History)
    → continue (wrap_result "graph invoke" r) (λ t k. (output e t, k)) k ≡ (ok o, k')
    → (t : AgentState) × (r ≡ ok t) × (k ≡ k') × (output e t ≡ ok o)
run_ok e (ok t) k o k' p = (t, refl, ground (arith, p), ground (arith, p))
run_ok e (err x) k o k' p = ground arith

-- A run that succeeds has followed the graph from the state that its input gives.
pub run-Walk :
    (e : Env) (g : Runnable e) (request_id : String) (now : ℕ) (i : WorkflowInput) (h k : History)
    (o : WorkflowOutput)
    → run e (some g) request_id now i h ≡ (ok o, k)
    → (t : AgentState) × Walk e t k router (start_state request_id now i) h × (output e t ≡ ok o)
unfolding run
run-Walk e g request_id now i h k o p =
    let (t, a, b, c) = run_ok e _ _ o k p in
    (t, g.follows (start_state request_id now i) t h k (pair_of _ a b), c)

paused_ok :
    (s : AgentState) (r : Result String) (o : WorkflowOutput)
    → paused_output s r ≡ ok o
    → r ≡ ok o.paused_state_json
paused_ok s (ok json) o p = ground arith
paused_ok s (err x) o p = ground arith

requires_of :
    (s : AgentState) (r : Result String) (o : WorkflowOutput)
    → paused_output s r ≡ ok o
    → o.requires_approval ≡ true
requires_of s (ok json) o p = ground arith
requires_of s (err x) o p = ground arith

output_by_ok :
    (e : Env) (t : AgentState) (o : WorkflowOutput) (b : Bool)
    → (if b then paused_output t (e.state_to_json t) else ok (output_of t)) ≡ ok o
    → (b ≡ o.requires_approval)
      × (o.requires_approval ≡ true → e.state_to_json t ≡ ok o.paused_state_json)
output_by_ok e t o true p =
    (sym (requires_of t (e.state_to_json t) o p), λ _. paused_ok t (e.state_to_json t) o p)
output_by_ok e t o false p = (ground arith, ground arith)

output_ok :
    (e : Env) (t : AgentState) (o : WorkflowOutput)
    → output e t ≡ ok o
    → (t.requires_approval ≡ o.requires_approval)
      × (o.requires_approval ≡ true → e.state_to_json t ≡ ok o.paused_state_json)
unfolding output
output_ok e t o p = output_by_ok e t o t.requires_approval p

-- A run that succeeds has run only tools that require no approval, and has walked the graph from the
-- state of its input to one that asks for an approval when the run does, and whose JSON is then the
-- run's paused state.
pub run-AllAllowed :
    (e : Env) (g : Runnable e) (request_id : String) (now : ℕ) (i : WorkflowInput) (h k : History)
    (o : WorkflowOutput)
    → run e (some g) request_id now i h ≡ (ok o, k)
    → AllAllowed e h
    → AllAllowed e k
      × ((t : AgentState) × Walk e t k router (start_state request_id now i) h
          × (t.requires_approval ≡ o.requires_approval)
          × (o.requires_approval ≡ true → e.state_to_json t ≡ ok o.paused_state_json))
run-AllAllowed e g request_id now i h k o p q =
    let (t, w, out) = run-Walk e g request_id now i h k o p in
    let (a, b) = output_ok e t o out in (Walk-AllAllowed e router _ t h k w q, (t, w, a, b))

-- If some pending call of `s` requires an approval, then acting again from the paused state, as a
-- resume does, runs once more the tools that ran before the pause, and pauses at the same calls.
pub act_node-repeats :
    (e : Env) (s t : AgentState) (h k : History)
    → has_pause e s.pending_tools ≡ true
    → t.pending_tools ≡ (act_node e s h).0.pending_tools
    → ((act_node e s h).1 ≡ onto (tool_runs e s.pending_tools) h)
      × ((act_node e t k).1 ≡ onto (tool_runs e s.pending_tools) k)
      × ((act_node e t k).0.requires_approval ≡ true)
      × ((act_node e t k).0.pending_tools ≡ s.pending_tools)
act_node-repeats e s t h k p q =
    let a = act_node-Acted e s h in
    let b = act_node-Acted e t k in
    let same : t.pending_tools ≡ s.pending_tools = q ∙ (a.pauses_once p).1 in
    let again : has_pause e t.pending_tools ≡ true = ap (has_pause e) same ∙ p in
    (
      a.history,
      b.history ∙ ap (λ (l : List ToolCall). onto (tool_runs e l) k) same,
      (b.pauses_once again).0,
      (b.pauses_once again).1 ∙ same,
    )

answered_all :
    (e : Env) (calls : List ToolCall) → has_pause e calls ≡ false → answered e calls ≡ calls
unfolding has_pause answered
answered_all e [] p = refl
answered_all e (tc ∷ rest) p = ground (arith, answered_all e rest)

-- If no pending call requires an approval, acting and observing append one reply for each pending
-- call, in order and under its id, and leave no call pending.
pub observe-act_answers :
    (e : Env) (s : AgentState) (h : History)
    → has_pause e s.pending_tools ≡ false
    → (reply_ids (observe_node (act_node e s h).0).messages
        ≡ reply_ids s.messages ++ call_ids s.pending_tools)
      × ((observe_node (act_node e s h).0).pending_tools ≡ [])
      × ((observe_node (act_node e s h).0).requires_approval ≡ s.requires_approval)
unfolding observe_node flush_tool_results
observe-act_answers e s h p =
    let a = act_node-Acted e s h in
    (
      map-append _ (act_node e s h).0.messages (act_node e s h).0.tool_results
          ∙ (ap₂ (λ (x y : List String). x ++ y) (ap reply_ids a.messages) a.replies_in_order
              ∙ ap (λ (l : List ToolCall). reply_ids s.messages ++ call_ids l)
                  (answered_all e s.pending_tools p)),
      (a.clears_pending p).1,
      (a.clears_pending p).0,
    )

rejected_response : (e : Env) (s : AgentState) → (rejected e s).response ≢ ""
unfolding rejected
rejected_response e s =
    ground (arith, eq_iff s.current_output "", eq_iff "The requested action was rejected." "")

-- A rejected resume of a state that can be read runs nothing and returns a non-empty response.
resume_rejected :
    (e : Env) (g : Runnable e) (json : String) (s : AgentState) (h : History)
    → e.state_from_json json ≡ ok s
    → (o : WorkflowOutput) × (resume e (some g) json false h ≡ (ok o, h))
      × (o.response ≢ "")
      × (o.requires_approval ≡ false)
      × (o.tool_calls_count ≡ s.tool_calls_count)
unfolding resume
resume_rejected e g json s h p =
    let s' = record s { is_approved = some false; requires_approval = false } in
    (rejected e s', rw p, rejected_response e s', unfold rejected in refl, unfold rejected in refl)
