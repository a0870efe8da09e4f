-- ===== src/Workflow/Calls.antt =====
-- How often the graph calls the model and runs tools.
use mathlib.Core.Path.{subst}
use go_agent_api.Base.{
  ℕ, suc, ◌+◌, ◌-◌, ◌^◌, ◌≤◌, ◌<◌, List, [], ◌∷◌, ◌≡◌, refl, ap, sym, ◌∙◌, arith, length, leb,
}
use go_agent_api.Base.Exec.{Result, ok, err}
use go_agent_api.Base.Words.{leb64}
use go_agent_api.Entity.Message.{ToolCall}
use go_agent_api.Tools.Registry.{History, Effect, chatted, executed}
use go_agent_api.Workflow.State.{AgentState, flush_tool_results, add_assistant_message}
use go_agent_api.Workflow.Env.{Env, Choice, ChatResponse}
use go_agent_api.Workflow.Nodes.{
  router_node, act_node, think_node, think_response, think_choice, observe_node, take_choice,
  response_node, human_approval_node,
}
use go_agent_api.Workflow.Graph.{
  Node, router, think, act, observe, human_approval, response, next_node, run_node, Walk,
}
use go_agent_api.Workflow.Walks.{Walk_induction, returned_as}
use go_agent_api.Workflow.Acting.{tool_runs, onto, fate, add_effect, act_node-Acted}

-- The calls of the model in a history, and the tools that were run.
abbrev pub chats : History → ℕ
chats [] = 0
chats (chatted req ∷ h) = suc (chats h)
chats (executed name args ∷ h) = chats h

abbrev pub tool_count : History → ℕ
tool_count [] = 0
tool_count (chatted req ∷ h) = tool_count h
tool_count (executed name args ∷ h) = suc (tool_count h)

abbrev pub AllRuns : List Effect → Type 0
AllRuns [] = Unit
AllRuns (chatted req ∷ h) = ⊥
AllRuns (executed name args ∷ h) = AllRuns h

open_effect :
    (e : Env) (tc : ToolCall) (later : List Effect)
    → AllRuns later
    → AllRuns (add_effect (fate e tc) tc.function.name later)
open_effect e tc later h = ground (arith)

chats-onto : (xs : List Effect) (h : History) → AllRuns xs → chats (onto xs h) ≡ chats h
chats-onto [] h p = refl
chats-onto (chatted req ∷ xs) h p = absurd p
chats-onto (executed name args ∷ xs) h p = chats-onto xs (executed name args ∷ h) p

pub tool_count-onto :
    (xs : List Effect) (h : History)
    → AllRuns xs
    → tool_count (onto xs h) ≡ tool_count h + length xs
tool_count-onto [] h p = omega arith
tool_count-onto (chatted req ∷ xs) h p = absurd p
tool_count-onto (executed name args ∷ xs) h p =
    omega (arith, tool_count-onto xs (executed name args ∷ h) p)

pub tool_runs-AllRuns : (e : Env) (calls : List ToolCall) → AllRuns (tool_runs e calls)
unfolding tool_runs
tool_runs-AllRuns e [] = tt
tool_runs-AllRuns e (tc ∷ rest) = open_effect e tc _ (tool_runs-AllRuns e rest)

-- What a thinking node has done, when it returns.
pub record Thought (e : Env) (s s' : AgentState) (h h' : History) : Type 0 where
  pub one_chat : chats h' ≡ suc (chats h)
  pub no_tools : tool_count h' ≡ tool_count h
  pub iteration : s'.iteration ≡ s.iteration
  pub max_iterations : s'.max_iterations ≡ s.max_iterations
  pub tool_calls_count : s'.tool_calls_count ≡ s.tool_calls_count
  pub is_approved : s'.is_approved ≡ s.is_approved
  pub requires_approval : s'.requires_approval ≡ s.requires_approval

abbrev Kept : AgentState → AgentState → Type 0
Kept s s' =
    (s'.iteration ≡ s.iteration)
    × (s'.max_iterations ≡ s.max_iterations)
    × (s'.tool_calls_count ≡ s.tool_calls_count)
    × (s'.is_approved ≡ s.is_approved)
    × (s'.requires_approval ≡ s.requires_approval)

ok_eq {ℓ} : {A : Type ℓ} (a b : A) → ok a ≡ ok b → a ≡ b
ok_eq a b p = cc

choice_keeps :
    (e : Env) (h : History) (n : ℕ) (cs : List Choice) (s s' : AgentState)
    → think_choice e h n cs s ≡ ok s'
    → Kept s s'
unfolding take_choice add_assistant_message
choice_keeps e h n [] s s' p = ground arith
choice_keeps e h n (c ∷ cs) s s' p = subst (Kept s) (ok_eq _ _ p) (refl, refl, refl, refl, refl)

response_keeps :
    (e : Env) (h : History) (r : Result ChatResponse) (s s' : AgentState)
    → think_response e h r s ≡ ok s'
    → Kept s s'
response_keeps e h (err x) s s' p = ground arith
response_keeps e h (ok resp) s s' p = choice_keeps e h resp.usage.total_tokens resp.choices s s' p

pub think_node-Thought :
    (e : Env) (s s' : AgentState) (h h' : History)
    → think_node e s h ≡ (ok s', h')
    → Thought e s s' h h'
unfolding think_node
think_node-Thought e s s' h h' p =
    let kept = response_keeps e h _ s s' (ap (λ (x : Result AgentState × History). x.0) p) in
    let grown : h' ≡ _ = sym (ap (λ (x : Result AgentState × History). x.1) p) in
    record {
      one_chat = ap chats grown;
      no_tools = ap tool_count grown;
      iteration = kept.0;
      max_iterations = kept.1;
      tool_calls_count = kept.2;
      is_approved = kept.3;
      requires_approval = kept.4;
    }

-- The calls of the model that a node and its rounds left may still make.
abbrev budget : Node → ℕ → ℕ
budget router left = suc left
budget think left = suc left
budget act left = left
budget observe left = left
budget human_approval left = left
budget response left = 0
budget Node.finish left = 0

abbrev pub left : AgentState → ℕ
left s = s.max_iterations - suc s.iteration

-- Before the last nodes the rounds done do not pass the limit.
abbrev pub InRounds : Node → ℕ → ℕ → Type 0
InRounds response i m = Unit
InRounds Node.finish i m = Unit
InRounds _ i m = i ≤ m

record Paid (base : ℕ) (n : Node) (s : AgentState) (h : History) : Type 0 where
  within : InRounds n s.iteration s.max_iterations
  small : s.max_iterations < 2 ^ 62
  paid : chats h + budget n (left s) ≤ base

-- the test of `observeNode`, where the numbers are small
leb64_small : (a b : ℕ) → a < 2 ^ 63 → b < 2 ^ 63 → leb64 a b ≡ leb a b
leb64_small a b p q = ground arith

Paid-router :
    (e : Env) (base : ℕ) (s : AgentState) (h : History)
    → Paid base router s h
    → Paid base think (router_node e s) h
unfolding router_node
Paid-router e base s h p = record { within = p.within; small = p.small; paid = p.paid }

Paid-think :
    (e : Env) (base : ℕ) (s s' : AgentState) (h h' : History)
    → Thought e s s' h h'
    → Paid base think s h
    → Paid base (next_node think s') s' h'
unfolding next_node
Paid-think e base s s' h h' t p = ground (arith, t.one_chat, t.iteration, t.max_iterations)

Paid-act :
    (e : Env) (base : ℕ) (s : AgentState) (h : History)
    → Paid base act s h
    → Paid base observe (act_node e s h).0 (act_node e s h).1
Paid-act e base s h p =
    let a = act_node-Acted e s h in
    let c : chats (act_node e s h).1 ≡ chats h =
      ap chats a.history
      ∙ chats-onto (tool_runs e s.pending_tools) h (tool_runs-AllRuns e s.pending_tools) in
    record {
      within = omega (arith, a.iteration, a.max_iterations);
      small = omega (arith, a.max_iterations);
      paid = omega (arith, c, a.iteration, a.max_iterations);
    }

Paid-observe :
    (base : ℕ) (s : AgentState) (h : History)
    → Paid base observe s h
    → Paid base (next_node observe (observe_node s)) (observe_node s) h
unfolding next_node observe_node flush_tool_results
Paid-observe base s h p = ground arith

Paid-approval :
    (base : ℕ) (s : AgentState) (h : History)
    → Paid base human_approval s h
    → Paid base (next_node human_approval s) s h
unfolding next_node
Paid-approval base s h p = ground arith

Paid-run :
    (e : Env) (base : ℕ) (n : Node) (s s' : AgentState) (h h' : History)
    → run_node e n s h ≡ (ok s', h')
    → Paid base n s h
    → Paid base (next_node n s') s' h'
unfolding run_node
Paid-run e base router s s' h h' p q =
    returned_as (λ t k. Paid base (next_node router t) t k) _ refl p
      (unfold next_node in Paid-router e base s h q)
Paid-run e base think s s' h h' p q =
    Paid-think e base s s' h h' (think_node-Thought e s s' h h' p) q
Paid-run e base act s s' h h' p q =
    returned_as (λ t k. Paid base (next_node act t) t k) _ refl p
      (unfold next_node in Paid-act e base s h q)
Paid-run e base observe s s' h h' p q =
    returned_as (λ t k. Paid base (next_node observe t) t k) _ refl p (Paid-observe base s h q)
Paid-run e base human_approval s s' h h' p q =
    returned_as (λ t k. Paid base (next_node human_approval t) t k) _ refl p
      (unfold human_approval_node in Paid-approval base s h q)
Paid-run e base response s s' h h' p q =
    returned_as (λ t k. Paid base (next_node response t) t k) _ refl p
      (unfold next_node response_node in record { within = tt; small = q.small; paid = q.paid })
Paid-run e base Node.finish s s' h h' p q =
    returned_as (λ t k. Paid base (next_node Node.finish t) t k) _ refl p
      (unfold next_node in record { within = tt; small = q.small; paid = q.paid })

-- A walk of the graph from its start, in a state whose rounds do not pass their limit, calls the
-- model at most once more than the rounds that are left after this one.
pub chats-Walk :
    (e : Env) (s t : AgentState) (h k : History)
    → Walk e t k router s h
    → s.iteration ≤ s.max_iterations
    → s.max_iterations < 2 ^ 62
    → chats k ≤ chats h + suc (s.max_iterations - suc s.iteration)
chats-Walk e s t h k w within small =
    let base = chats h + suc (left s) in
    let end =
      Walk_induction e (Paid base) (Paid-run e base) w
        (record { within = within; small = small; paid = omega arith }) in
    omega (arith, end.paid)
