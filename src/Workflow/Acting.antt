-- ===== src/Workflow/Acting.antt =====
-- What `actNode` does with the pending calls, against a description that looks only at the calls.
use mathlib.Core.List.{append_assoc, append-nil, map-append}
use go_agent_api.Base.{
  ℕ, String, length, Bool, true, false, Option, none, some, List, [], ◌∷◌, ◌++◌, map, ◌≡◌, refl, ap,
  ◌∙◌, sym, ◌+◌, ◌%◌, ◌^◌, arith,
}
use go_agent_api.Base.Exec.{Result, ok, err}
use go_agent_api.Entity.Any.{Any, Object}
use go_agent_api.Entity.Message.{ToolCall, ChatMessage}
use go_agent_api.Tools.Registry.{History, Effect, executed, Tool, get}
use go_agent_api.Workflow.State.{AgentState, add_tool_result}
use go_agent_api.Workflow.Env.{Env}
use go_agent_api.Workflow.Nodes.{
  pause, run_tool, Round, after_round, act_found, act_tool, act_args, act_round, act_loop, act_node,
}
mod Fates
unfoldable pub use Fates.*

-- A round that answers its call and goes on: `c` tools ran in it.
record Replied (id : String) (c : ℕ) (s s' : AgentState) : Type 0 where
  ids : reply_ids s'.tool_results ≡ reply_ids s.tool_results ++ id ∷ []
  count : s'.tool_calls_count % 2 ^ 64 ≡ (s.tool_calls_count + c) % 2 ^ 64
  requires : s'.requires_approval ≡ s.requires_approval
  pending : s'.pending_tools ≡ s.pending_tools
  messages : s'.messages ≡ s.messages
  iteration : s'.iteration ≡ s.iteration
  max_iterations : s'.max_iterations ≡ s.max_iterations
  is_approved : s'.is_approved ≡ s.is_approved
  should_stop : s'.should_stop ≡ s.should_stop
  tokens_used : s'.tokens_used ≡ s.tokens_used

then_ids :
    (xs bs cs : List String) (id : String) {ds : List String}
    → bs ≡ xs ++ id ∷ []
    → ds ≡ bs ++ cs
    → ds ≡ xs ++ id ∷ cs
then_ids xs bs cs id p q = q ∙ (ap (λ (l : List String). l ++ cs) p ∙ append_assoc xs (id ∷ []) cs)

module _ (effects : List Effect) (ids : List String) (paused : Bool) (id : String)
    {s s' : AgentState} (h : History) {out : AgentState × History} where
  answer_then :
      Replied id 0 s s'
      → Acted effects ids paused s' h out
      → Acted effects (id ∷ ids) paused s h out
  answer_then r a = record {
    history = a.history;
    replies_in_order = then_ids _ _ _ _ r.ids a.replies_in_order;
    pauses_once = λ p. let (x, y) = a.pauses_once p in (x, y ∙ r.pending);
    clears_pending = λ p. let (x, y) = a.clears_pending p in (x ∙ r.requires, y);
    counted = omega (arith, a.counted, r.count);
    messages = a.messages ∙ r.messages;
    iteration = a.iteration ∙ r.iteration;
    max_iterations = a.max_iterations ∙ r.max_iterations;
    is_approved = a.is_approved ∙ r.is_approved;
    should_stop = a.should_stop ∙ r.should_stop;
    tokens_used = a.tokens_used ∙ r.tokens_used;
  }

  run_then :
      (x : Effect)
      → Replied id 1 s s'
      → Acted effects ids paused s' (x ∷ h) out
      → Acted (x ∷ effects) (id ∷ ids) paused s h out
  run_then x r a = record {
    history = a.history;
    replies_in_order = then_ids _ _ _ _ r.ids a.replies_in_order;
    pauses_once = λ p. let (x, y) = a.pauses_once p in (x, y ∙ r.pending);
    clears_pending = λ p. let (x, y) = a.clears_pending p in (x ∙ r.requires, y);
    counted = omega (arith, a.counted, r.count);
    messages = a.messages ∙ r.messages;
    iteration = a.iteration ∙ r.iteration;
    max_iterations = a.max_iterations ∙ r.max_iterations;
    is_approved = a.is_approved ∙ r.is_approved;
    should_stop = a.should_stop ∙ r.should_stop;
    tokens_used = a.tokens_used ∙ r.tokens_used;
  }

Replied-add_tool_result :
    (e : Env) (id name : String) (v : Any) (s : AgentState)
    → Replied id 0 s (add_tool_result e.marshal id name v s)
unfolding add_tool_result
Replied-add_tool_result e id name v s = record {
  ids = map-append _ s.tool_results _;
  count = omega arith;
  requires = refl;
  pending = refl;
  messages = refl;
  iteration = refl;
  max_iterations = refl;
  is_approved = refl;
  should_stop = refl;
  tokens_used = refl;
}

Replied-run_tool :
    (e : Env) (tc : ToolCall) (t : Tool) (args : Object) (s : AgentState) (h : History)
    → Replied tc.id 1 s (run_tool e tc t args s h)
unfolding run_tool add_tool_result
Replied-run_tool e tc t args s h = record {
  ids = map-append _ s.tool_results _;
  count = omega arith;
  requires = refl;
  pending = refl;
  messages = refl;
  iteration = refl;
  max_iterations = refl;
  is_approved = refl;
  should_stop = refl;
  tokens_used = refl;
}

Acted-pause :
    (tc : ToolCall) (args : Object) (s : AgentState) (h : History)
    → Acted [] [] true s h (pause tc args s, h)
unfolding pause
Acted-pause tc args s h = record {
  history = refl;
  replies_in_order = sym (append-nil _);
  pauses_once = λ p. (refl, refl);
  clears_pending = λ p. cc;
  counted = omega arith;
  messages = refl;
  iteration = refl;
  max_iterations = refl;
  is_approved = refl;
  should_stop = refl;
  tokens_used = refl;
}

-- What the rest of the loop does, from any state.
abbrev Loops : Env → List ToolCall → Type 0
Loops e calls =
    (s : AgentState) (h : History)
    → Acted (tool_runs e calls) (call_ids (answered e calls)) (has_pause e calls) s h
        (act_loop e calls s h)

-- One round of a given fate, and then the rest.
abbrev RoundThen : Env → ToolCall → List ToolCall → Fate → Round → AgentState → History → Type 0
RoundThen e tc rest f r s h =
    Acted (add_effect f tc.function.name (tool_runs e rest))
      (call_ids (add_answer f tc (answered e rest))) (add_pause f (has_pause e rest)) s h
      (after_round (act_loop e rest) h r)

module _ (e : Env) (tc : ToolCall) (rest : List ToolCall) (later : Loops e rest) (s : AgentState)
    (h : History) where
  round_found :
      (args : Object) (t : Tool) (b : Bool)
      → RoundThen e tc rest (found_fate args b) (act_found e tc args t b s h) s h
  round_found args t true = Acted-pause tc args s h
  round_found args t false =
      run_then _ _ _ tc.id h (executed tc.function.name args) (Replied-run_tool e tc t args s h)
        (later _ _)

  round_tool :
      (args : Object) (o : Option Tool)
      → RoundThen e tc rest (tool_fate args o) (act_tool e tc args o s h) s h
  round_tool args none =
      answer_then _ _ _ tc.id h (Replied-add_tool_result e tc.id tc.function.name _ s) (later _ _)
  round_tool args (some t) = round_found args t t.requires_approval

  round_args :
      (r : Result Object)
      → RoundThen e tc rest (args_fate e tc.function.name r) (act_args e tc r s h) s h
  round_args (err x) =
      answer_then _ _ _ tc.id h (Replied-add_tool_result e tc.id tc.function.name _ s) (later _ _)
  round_args (ok args) = round_tool args (get e.registry tc.function.name)

act_loop-Acted : (e : Env) (calls : List ToolCall) → Loops e calls
unfolding act_loop tool_runs answered has_pause fate act_round
act_loop-Acted e [] s h = record {
  history = refl;
  replies_in_order = sym (append-nil _);
  pauses_once = λ p. cc;
  clears_pending = λ p. (refl, refl);
  counted = omega arith;
  messages = refl;
  iteration = refl;
  max_iterations = refl;
  is_approved = refl;
  should_stop = refl;
  tokens_used = refl;
}
act_loop-Acted e (tc ∷ rest) s h =
    round_args e tc rest (act_loop-Acted e rest) s h (e.unmarshal tc.function.arguments)

-- What `actNode` has done with the pending calls of a state.
pub act_node-Acted :
    (e : Env) (s : AgentState) (h : History)
    → Acted
        (tool_runs e s.pending_tools)
        (call_ids (answered e s.pending_tools))
        (has_pause e s.pending_tools)
        (record s { tool_results = [] })
        h
        (act_node e s h)
unfolding act_node
act_node-Acted e s h = act_loop-Acted e s.pending_tools (record s { tool_results = [] }) h
