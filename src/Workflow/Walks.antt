-- ===== src/Workflow/Walks.antt =====
-- The rule of invariants for walks of the graph, and the runs that take at most so many steps.
use go_agent_api.Base.{ℕ, zero, suc, ◌≡◌, refl, arith}
use mathlib.Core.Path.{subst₂}
use go_agent_api.Base.Exec.{Result, Exec, ok, err, continue}
use go_agent_api.Tools.Registry.{History}
use go_agent_api.Workflow.State.{AgentState}
use go_agent_api.Workflow.Env.{Env}
use go_agent_api.Workflow.Graph.{
  Node, router, think, act, observe, human_approval, response, next_node, run_node, Walk, done,
  step, Runnable, walk,
}

module _ {ℓ} (e : Env) (P : Node → AgentState → History → Type ℓ)
    (keep : (n : Node) (s s' : AgentState) (h h' : History)
      → run_node e n s h ≡ (ok s', h')
      → P n s h
      → P (next_node n s') s' h') where
  -- A property of node, state and history that each node's run keeps holds at the end.
  pub Walk_induction :
      {t : AgentState} {k : History} {n : Node} {s : AgentState} {h : History}
      → Walk e t k n s h
      → P n s h
      → P Node.finish t k
  Walk_induction (done p q) b = subst₂ (P Node.finish) p q b
  Walk_induction (step n r w) b = Walk_induction w (keep n _ _ _ _ r b)

-- Inversion of a successful continuation.
pub continue-eq-ok {ℓ} :
    {S A B : Type ℓ} (r : Result A) (f : A → Exec S B) (s : S) {b : B} {u : S}
    → continue r f s ≡ (ok b, u)
    → (a : A) × (r ≡ ok a) × (f a s ≡ (ok b, u))
continue-eq-ok (ok a) f s p = (a, refl, p)
continue-eq-ok (err x) f s p = ground arith

pair_of {ℓ} : {A B : Type ℓ} (p : A × B) {a : A} → p.0 ≡ a → p ≡ (a, p.1)
pair_of (x, y) q = ground arith

abbrev Follows : Env → ℕ → Node → AgentState → History → Type 0
Follows e fuel n s h =
    (t : AgentState) (k : History) → walk e fuel n s h ≡ (ok t, k) → Walk e t k n s h

follow_step :
    (e : Env) (fuel : ℕ) (n : Node) (s : AgentState) (h : History)
    → ((s' : AgentState) (h' : History) → Follows e fuel (next_node n s') s' h')
    → (t : AgentState) (k : History)
    → continue (run_node e n s h).0 (λ s'. walk e fuel (next_node n s') s') (run_node e n s h).1
      ≡ (ok t, k)
    → Walk e t k n s h
follow_step e fuel n s h ih t k p =
    let (s', ran, rest) = continue-eq-ok _ (λ s'. walk e fuel (next_node n s') s') _ p in
    step n (pair_of (run_node e n s h) ran) (ih s' (run_node e n s h).1 t k rest)

-- A bounded run that succeeds follows the edges and branches of the graph.
pub walk-Follows :
    (e : Env) (fuel : ℕ) (n : Node) (s : AgentState) (h : History) → Follows e fuel n s h
unfolding walk
walk-Follows e zero n s h t k p = ground arith
walk-Follows e (suc fuel) Node.finish s h t k p = done (ground arith) (ground arith)
walk-Follows e (suc fuel) router s h t k p =
    follow_step e fuel router s h (λ s' h'. walk-Follows e fuel (next_node router s') s' h') t k p
walk-Follows e (suc fuel) think s h t k p =
    follow_step e fuel think s h (λ s' h'. walk-Follows e fuel (next_node think s') s' h') t k p
walk-Follows e (suc fuel) act s h t k p =
    follow_step e fuel act s h (λ s' h'. walk-Follows e fuel (next_node act s') s' h') t k p
walk-Follows e (suc fuel) observe s h t k p =
    follow_step e fuel observe s h (λ s' h'. walk-Follows e fuel (next_node observe s') s' h') t k p
walk-Follows e (suc fuel) human_approval s h t k p =
    follow_step e fuel human_approval s h
      (λ s' h'. walk-Follows e fuel (next_node human_approval s') s' h') t k p
walk-Follows e (suc fuel) response s h t k p =
    follow_step e fuel response s h (λ s' h'. walk-Follows e fuel (next_node response s') s' h') t k
      p

-- The engine that stops after so many nodes.
abbrev pub bounded : (e : Env) → ℕ → Runnable e
bounded e fuel = record {
  invoke = walk e fuel router;
  follows = λ s t h k p. walk-Follows e fuel router s h t k p;
}

-- A property of the state and history that a node returns.
pub returned_as {ℓ} :
    (P : AgentState → History → Type ℓ) (x : Result AgentState × History) {s s' : AgentState}
    {h' : History}
    → x.0 ≡ ok s
    → x ≡ (ok s', h')
    → P s x.1
    → P s' h'
returned_as P (r, h) q p b = subst₂ P (ground arith) (ground arith) b
