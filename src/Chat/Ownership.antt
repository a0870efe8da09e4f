-- ===== src/Chat/Ownership.antt =====
-- The use cases of internal/application/usecase/chat on conversations of other users.
use go_agent_api.Base.{ℕ, false, ◌==◌, ==_iff, some, [], ◌≡◌, ◌≢◌, refl, arith}
use go_agent_api.Base.Exec.{err, message, ◌>>=◌}
use go_agent_api.Entity.Conversation.{Conversation}
use go_agent_api.Store.World.{World}
use go_agent_api.Store.Rows.{found, find_by_id-found}
use go_agent_api.Chat.Ports.{Engine}
use go_agent_api.Chat.SendMessage
use go_agent_api.Chat.SendMessage.{SendMessageInput, UseCase, Fresh, stateful, open_conversation}
use go_agent_api.Chat.ApproveAction
use go_agent_api.Chat.ApproveAction.{ApproveInput}
use go_agent_api.Chat.Queries.{get_conversation}

other_user : (c : Conversation) (user_id : ℕ) → c.user_id ≢ user_id → (c.user_id == user_id) ≡ false
other_user c user_id p = ground (arith, p, ==_iff c.user_id user_id)

-- When no statement is refused, reading a conversation of another user, sending a message to it
-- and deciding on an action in it all fail with the same error, and change nothing.
pub foreign_conversation :
    (uc : UseCase) (fresh : Fresh) (engine : Engine) (id now : ℕ) (input : SendMessageInput)
    (approval : ApproveInput) (c : Conversation) (w : World)
    → w.faults ≡ []
    → found approval.conversation_id w ≡ some c
    → input.conversation_id ≡ some approval.conversation_id
    → input.messages ≡ []
    → c.user_id ≢ approval.user_id
    → c.user_id ≢ input.user_id
    → (get_conversation approval.conversation_id approval.user_id w
        ≡ (err (message "unauthorized access to conversation"), w))
      × (SendMessage.execute uc fresh now input w
          ≡ (err (message "unauthorized access to conversation"), w))
      × (ApproveAction.execute engine id now approval w
          ≡ (err (message "unauthorized access to conversation"), w))
unfolding get_conversation SendMessage.execute stateful open_conversation ApproveAction.execute
    ◌>>=◌
foreign_conversation uc fresh engine id now input approval c w quiet p target none_sent q r =
    let search = find_by_id-found approval.conversation_id w c quiet p in
    let a = other_user c approval.user_id q in
    let b = other_user c input.user_id r in
    (rw search (rw a refl), rw none_sent (rw target (rw search (rw b refl))), rw search (rw a refl))
