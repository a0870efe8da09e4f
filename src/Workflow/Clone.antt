-- ===== src/Workflow/Clone.antt =====
-- Clone of internal/infrastructure/eino/state/agent_state.go, which no code calls. Its slices and
-- its map are references here: a slice is the address of an array and a length.
use go_agent_api.Base.{
  ℕ, suc, ◌<◌, ◌==◌, ==_self, String, zero, [], ◌∷◌, ap, List, ◌≡◌, refl, arith, take,
  if◌then◌else◌,
}
use go_agent_api.Entity.Message.{ToolCall, ChatMessage}
use go_agent_api.Workflow.State.{AgentState}

record Slice : Type 0 where
  pub addr : ℕ
  pub len : ℕ

-- The arrays of one element type, at the addresses below `next`.
record Arrays (A : Type 0) : Type 0 where
  pub next : ℕ
  pub cell : ℕ → List A

module _ {A : Type 0} where
  abbrev elements : Slice → Arrays A → List A
  elements s h = take s.len (h.cell s.addr)

  -- a write to the array of a slice
  abbrev store : Slice → List A → Arrays A → Arrays A
  store s xs h = record h { cell = λ a. if a == s.addr then xs else h.cell a }

  -- make and copy
  copied : Slice → Arrays A → Slice × Arrays A
  copied s h = (
    record { addr = h.next; len = s.len },
    record { next = suc h.next; cell = λ a. if a == h.next then elements s h else h.cell a },
  )

record Heap : Type 0 where
  pub messages : Arrays ChatMessage
  pub calls : Arrays ToolCall
  pub texts : Arrays String

-- AgentState, its references, and its fields that are values as `plain` has them
record StateRef : Type 0 where
  pub plain : AgentState
  pub messages : Slice
  pub pending_tools : Slice
  pub agent_history : Slice
  -- an array of chat messages too
  pub tool_results : Slice
  pub available_tools : Slice
  pub approval_data : ℕ

-- Clone
clone : StateRef → Heap → StateRef × Heap
unfolding copied
clone s h =
    let (messages, h1) = copied s.messages h.messages in
    let (pending, h2) = copied s.pending_tools h.calls in
    let (history, h3) = copied s.agent_history h.texts in
    (
      record s { messages = messages; pending_tools = pending; agent_history = history },
      record { messages = h1; calls = h2; texts = h3 },
    )

module _ {A : Type 0} where
  take_all : (n : ℕ) (xs : List A) → take n (take n xs) ≡ take n xs
  take_all zero xs = refl
  take_all (suc n) [] = refl
  take_all (suc n) (x ∷ xs) = ap (λ ys. x ∷ ys) (take_all n xs)

  elements-copied :
      (s : Slice) (h : Arrays A) → elements (copied s h).0 (copied s h).1 ≡ elements s h
  unfolding copied
  elements-copied s h = rw (==_self h.next) (take_all s.len (h.cell s.addr))

  -- A slice of an array that was there is not changed by a write to the copy of another.
  elements-store :
      (s t : Slice) (h : Arrays A) (xs : List A)
      → t.addr < h.next
      → elements t (store (copied s h).0 xs (copied s h).1) ≡ elements t h
  unfolding copied
  elements-store s t h xs old = ground (arith, old)

-- A clone of a state whose arrays are all there holds the same messages, pending calls and history;
-- a write to its messages is not seen through the slices of the original; but the tool results, the
-- available tools and the approval data stay shared.
clone_lem :
    (s : StateRef) (h : Heap) (xs : List ChatMessage)
    → s.messages.addr < h.messages.next
    → s.tool_results.addr < h.messages.next
    → (elements (clone s h).0.messages (clone s h).1.messages ≡ elements s.messages h.messages)
      × (elements (clone s h).0.pending_tools (clone s h).1.calls
          ≡ elements s.pending_tools h.calls)
      × (elements (clone s h).0.agent_history (clone s h).1.texts
          ≡ elements s.agent_history h.texts)
      × (elements s.messages (store (clone s h).0.messages xs (clone s h).1.messages)
          ≡ elements s.messages h.messages)
      × (elements s.tool_results (store (clone s h).0.messages xs (clone s h).1.messages)
          ≡ elements s.tool_results h.messages)
      × ((clone s h).0.tool_results ≡ s.tool_results)
      × ((clone s h).0.available_tools ≡ s.available_tools)
      × ((clone s h).0.approval_data ≡ s.approval_data)
unfolding clone
clone_lem s h xs old old' = (
  elements-copied s.messages h.messages,
  elements-copied s.pending_tools h.calls,
  elements-copied s.agent_history h.texts,
  elements-store s.messages s.messages h.messages xs old,
  elements-store s.messages s.tool_results h.messages xs old',
  refl,
  refl,
  refl,
)
