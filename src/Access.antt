-- ===== src/Access.antt =====
-- internal/domain/service/auth_domain_service.go and conversation_domain_service.go. The absent
-- error is success; a title is the list of its bytes, which the code counts and cuts.
use Prim.Native.String.{◌++◌ as ◌+++◌}
use go_agent_api.Base.{
  ℕ, String, Bool, true, false, not, ◌&&◌, ◌||◌, ◌==◌, Option, none, some, List, [], ◌∷◌, ◌++◌,
  str_eq, leb, length, take, if◌then◌else◌,
}
use go_agent_api.Base.Exec.{Error, message}
use go_agent_api.Entity.User.{User, is_admin, can_use_tools}
use go_agent_api.Entity.Token.{Token, is_expired, is_valid, can_use_tool, can_use_model}
use go_agent_api.Entity.Conversation.{
  Conversation, ConversationStatus, active, pending, completed, failed, archived, is_active,
  is_pending_approval,
}
pub mod Rules

-- `if test { return fmt.Errorf(text) }`
abbrev refuse : Bool → String → Option Error → Option Error
refuse true text rest = some (message text)
refuse false text rest = rest

-- ValidateTokenAccess
unfoldable pub validate_token_access : ℕ → User → Token → String → String → Option Error
validate_token_access now user token tool_name model_name =
    refuse (not user.is_active) "user account is inactive" (
      refuse (not (is_valid now token) && is_expired now token) "token has expired" (
        refuse (not (is_valid now token)) "token has been revoked" (
          refuse (not (token.user_id == user.id)) "token does not belong to user" (
            refuse (not (str_eq tool_name "") && not (can_use_tool token tool_name))
              ("token does not have access to tool: " +++ tool_name)
              (refuse (not (str_eq model_name "") && not (can_use_model token model_name))
                ("token does not have access to model: " +++ model_name) none)))))

-- CanCreateAPIKey, whose test is that of User.CanUseTools
unfoldable pub can_create_api_key : User → Bool
unfolding can_use_tools
can_create_api_key user = can_use_tools user

-- string(status)
unfoldable pub status_text : ConversationStatus → String
status_text active = "active"
status_text pending = "pending_approval"
status_text completed = "completed"
status_text failed = "failed"
status_text archived = "archived"

-- CanSendMessage
unfoldable pub can_send_message : Conversation → User → Option Error
unfolding status_text
can_send_message conv user = refuse (not user.is_active) "user account is inactive" (
    refuse (not (conv.user_id == user.id) && not (is_admin user))
      "user does not own this conversation"
      (refuse (not (is_active conv) && is_pending_approval conv)
        "conversation is pending approval, cannot send new messages"
        (refuse (not (is_active conv))
          ("conversation is not active (status: " +++ status_text conv.status +++ ")") none)))

-- CanApprove
unfoldable pub can_approve : Conversation → User → Option Error
can_approve conv user =
    refuse (not (is_pending_approval conv)) "conversation is not pending approval" (
      refuse (not (conv.user_id == user.id) && not (is_admin user))
        "user is not authorized to approve this action" none)

-- the cut, at so many bytes
unfoldable pub shortened : ℕ → List ℕ → List ℕ
shortened max_len content =
    if leb (length content) max_len then content else take max_len content ++ 46 ∷ 46 ∷ 46 ∷ []

-- GenerateTitle
unfoldable pub generate_title : List ℕ → List ℕ
unfolding shortened
generate_title content = shortened 100 content
