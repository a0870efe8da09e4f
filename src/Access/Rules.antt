-- ===== src/Access/Rules.antt =====
-- The rules of internal/domain/service, all branches together.
use go_agent_api.Base.{
  ℕ, ◌+◌, ◌∷◌, [], leb, Bool-cases, String, true, ◌≡◌, ◌≢◌, ◌≤◌, refl, arith, ◌⊎◌, ◌↔◌, inl, inr,
  ==_iff, eq_iff, none, List, length, take, length-take-le, length-append,
}
use go_agent_api.Entity.User.{User, is_admin}
use go_agent_api.Entity.Token.{Token, is_valid, can_use_tool, can_use_model}
use go_agent_api.Entity.Conversation.{Conversation, is_active, is_pending_approval}
use go_agent_api.Access.{
  validate_token_access, can_send_message, can_approve, generate_title, shortened,
}

-- An access is granted exactly to an active user with a valid token of their own that allows the
-- tool and the model, where one is named.
pub validate_token_access_iff :
    (now : ℕ) (user : User) (token : Token) (tool_name model_name : String)
    → (validate_token_access now user token tool_name model_name ≡ none) ↔ (
        (user.is_active ≡ true)
        × (is_valid now token ≡ true)
        × (token.user_id ≡ user.id)
        × (tool_name ≢ "" → can_use_tool token tool_name ≡ true)
        × (model_name ≢ "" → can_use_model token model_name ≡ true))
unfolding validate_token_access
validate_token_access_iff now user token tool_name model_name =
    ground (arith, ==_iff token.user_id user.id, eq_iff tool_name "", eq_iff model_name "")

-- Whoever may send a message to a conversation may not approve an action of it, and the other way
-- round: no user may do both, and either is refused to a user who neither owns it nor is an admin.
can_send_message-can_approve :
    (conv : Conversation) (user other : User)
    → ((can_send_message conv user ≡ none) → can_approve conv other ≢ none)
      × ((can_send_message conv user ≡ none) ⊎ (can_approve conv user ≡ none)
          → (conv.user_id ≡ user.id) ⊎ (is_admin user ≡ true))
unfolding can_send_message can_approve is_active is_pending_approval
can_send_message-can_approve conv user other = ground (arith, ==_iff conv.user_id user.id)

shortened-length :
    (max_len : ℕ) (content : List ℕ)
    → (length (shortened max_len content) ≤ max_len + 3)
      × (length content ≤ max_len → shortened max_len content ≡ content)
unfolding shortened
shortened-length max_len content = elim (Bool-cases (leb (length content) max_len)) [
  | inl p ↦ rw p (ground (arith, p), λ _. refl)
  | inr p ↦ rw p (
    omega (
      arith,
      length-append (take max_len content) (46 ∷ 46 ∷ 46 ∷ []),
      length-take-le max_len content,
    ),
    λ q. absurd (ground (arith, p, q)),
  )
]

-- A title has at most 103 bytes, and is the content itself when that has at most 100.
generate_title-length :
    (content : List ℕ)
    → (length (generate_title content) ≤ 103)
      × (length content ≤ 100 → generate_title content ≡ content)
unfolding generate_title
generate_title-length content = shortened-length 100 content
