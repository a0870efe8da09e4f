-- ===== src/Store/Refinement/Spec.antt =====
-- conversation_repository.go as a map from ids to conversations: the operations, and what they mean for a map.
use go_agent_api.Base.{ℕ, Option, none, some, List, [], ◌∷◌, ◌==◌, if◌then◌else◌}
use mathlib.Core.Option
use go_agent_api.Base.Exec.{Exec, pure, ◌>>◌}
use go_agent_api.Entity.Any.{Object}
use go_agent_api.Entity.Conversation.{Conversation}
use go_agent_api.Store.World.{World}
use go_agent_api.Store.Conversations
use go_agent_api.Store.Conversations.{conv_of, is_live, has_id, update_row, state_row, delete_row}

-- the operations of the repository that write
pub data Operation : Type 0 where
  create : Conversation → Operation
  update : Conversation → Operation
  update_workflow_state : ℕ → Object → Operation
  delete : ℕ → Operation

unfoldable pub perform : Operation → Exec World (Unit {0})
perform (create c) = Conversations.create c
perform (update c) = Conversations.update c
perform (update_workflow_state id state) = Conversations.update_workflow_state id state
perform (delete id) = Conversations.delete id

-- What an update and an update of the workflow state make of a conversation at the time `now`.
abbrev pub updated : ℕ → Conversation → Conversation → Conversation
updated now c old = record c {
  user_id = old.user_id;
  created_at = old.created_at;
  updated_at = now;
}

abbrev pub with_state : ℕ → Object → Conversation → Conversation
with_state now state old = record old { workflow_state = state; updated_at = now }

-- What an operation at the time `now` means for a map from ids to conversations.
unfoldable pub apply : ℕ → Operation → (ℕ → Option Conversation) → ℕ → Option Conversation
apply now (create c) m id =
    if id == c.id then some (record c { last_message_at = none; completed_at = none }) else m id
apply now (update c) m id = if id == c.id then Option.map (updated now c) (m id) else m id
apply now (update_workflow_state target state) m id =
    if id == target then Option.map (with_state now state) (m id) else m id
apply now (delete target) m id = if id == target then none else m id

unfoldable pub perform_all : List Operation → Exec World (Unit {0})
unfolding perform
perform_all [] = pure tt
perform_all (op ∷ ops) = perform op >> perform_all ops

unfoldable pub apply_all : ℕ → List Operation → (ℕ → Option Conversation) → ℕ → Option Conversation
unfolding apply
apply_all now [] m = m
apply_all now (op ∷ ops) m = apply_all now ops (apply now op m)
