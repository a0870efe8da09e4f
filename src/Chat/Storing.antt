-- ===== src/Chat/Storing.antt =====
-- What a message to a new conversation, in send_message.go, leaves in the tables, whatever comes
-- after it.
use go_agent_api.Base.{
  ℕ, String, Bool, true, false, ==_self, eq_refl, if◌then◌else◌, ==_iff, ◌&&◌, Option, none, List,
  [], ◌∷◌, ◌++◌, any, any-map, any-append_left, any-append_new, str_eq, ◌≡◌, refl, sym, ap, ◌∙◌,
  arith, Bool-cases, inl, inr,
}
use mathlib.Core.Path.{subst}
use go_agent_api.Base.Keeping.{Keeps, bind-Keeps, then-Keeps}
use go_agent_api.Base.Exec.{Result, Exec, ok, wrap_error, pure, continue, ◌>>=◌}
use go_agent_api.Entity.Any.{Object}
use go_agent_api.Entity.Conversation.{Conversation, new_conversation}
use go_agent_api.Entity.Message.{Message, new_user_message, ChatMessage}
use go_agent_api.Tools.Registry.{History}
use go_agent_api.Workflow.Engine.{WorkflowOutput}
use go_agent_api.Store.World.{World, ConversationRow, outside}
use go_agent_api.Store.Messages
use go_agent_api.Store.Conversations
use go_agent_api.Store.Conversations.{is_owned}
use go_agent_api.Store.Rows.{quiet-eq}
use go_agent_api.Chat.SendMessage.{
  SendMessageInput, SendMessageOutput, UseCase, Fresh, pause, answer, conclude, converse, stateful,
  open_conversation, execute, workflow_input, dispatch,
}

-- a row of a conversation that the user can find
abbrev pub is_opened : Fresh → SendMessageInput → ConversationRow → Bool
is_opened fresh input r = Conversations.has_id fresh.conversation r && is_owned input.user_id r

-- the row of the message that opened it
abbrev pub is_first_message : Fresh → SendMessageInput → Message → Bool
is_first_message fresh input m =
    Messages.has_id fresh.user_message m
    && (Messages.is_in fresh.conversation m && str_eq m.content input.content)

module _ (fresh : Fresh) (input : SendMessageInput) where
  -- No statement is refused, and the conversation stands in the tables with its first message.
  abbrev pub Stored : World → Type 0
  Stored w =
      (w.faults ≡ [])
      × (any (is_opened fresh input) w.conversations ≡ true)
      × (any (is_first_message fresh input) w.messages ≡ true)

  update-Stored : (c : Conversation) → Keeps Stored (Conversations.update c)
  unfolding Conversations.update
  update-Stored c w (p, q, r) = rw (quiet-eq w p) (
    refl,
    any-map (is_opened fresh input) _ w.conversations (λ x. ground (arith, ==_iff x.conv.id c.id))
        ∙ q,
    r,
  )

  state-Stored : (i : ℕ) (x : Object) → Keeps Stored (Conversations.update_workflow_state i x)
  unfolding Conversations.update_workflow_state
  state-Stored i x w (p, q, r) =
      rw (quiet-eq w p)
        (refl, any-map (is_opened fresh input) _ w.conversations (λ c. ground arith) ∙ q, r)

  create-Stored : (m : Message) → Keeps Stored (Messages.create m)
  unfolding Messages.create
  create-Stored m w (p, q, r) =
      rw (quiet-eq w p) (elim (Bool-cases (any (Messages.has_id m.id) w.messages)) [
        | inl e ↦ rw e (refl, q, r)
        | inr e ↦ rw e (refl, q, any-append_left (is_first_message fresh input) w.messages _ r)
      ])

  find-Stored : (i : ℕ) → Keeps Stored (Messages.find_by_conversation_id i)
  unfolding Messages.find_by_conversation_id
  find-Stored i w (p, q, r) = rw (quiet-eq w p) (refl, q, r)

  wrap-Stored :
      {A : Type 0} (t : String) (m : Exec World A) → Keeps Stored m → Keeps Stored (wrap_error t m)
  unfolding wrap_error
  wrap-Stored t m h w b = h w b

  pure-Stored : {A : Type 0} (a : A) → Keeps Stored (pure a)
  unfolding pure
  pure-Stored a w b = b

  outside-Stored : {A : Type 0} (m : Exec History A) → Keeps Stored (outside m)
  unfolding outside
  outside-Stored m w b = b

  pause-Stored :
      (now : ℕ) (conv : Conversation) (result : WorkflowOutput)
      → Keeps Stored (pause now conv result)
  unfolding pause
  pause-Stored now conv result =
      bind-Keeps Stored _ _ (wrap-Stored _ _ (state-Stored _ _))
        λ u. bind-Keeps Stored _ _ (wrap-Stored _ _ (update-Stored _)) (λ v. pure-Stored _)

  answer-Stored :
      (uc : UseCase) (now : ℕ) (conv : Conversation) (result : WorkflowOutput)
      → Keeps Stored (answer uc fresh now input conv result)
  unfolding answer
  answer-Stored uc now conv result =
      bind-Keeps Stored _ _ (wrap-Stored _ _ (create-Stored _))
        λ u. bind-Keeps Stored _ _ (wrap-Stored _ _ (update-Stored _)) (λ v. pure-Stored _)

  conclude-Stored :
      (uc : UseCase) (now : ℕ) (conv : Conversation) (result : WorkflowOutput) (b : Bool)
      → Keeps Stored (conclude uc fresh now input conv result b)
  conclude-Stored uc now conv result true = pause-Stored now conv result
  conclude-Stored uc now conv result false = answer-Stored uc now conv result

  -- What follows the message that was stored.
  rest-Stored :
      (uc : UseCase) (now : ℕ) (conv : Conversation)
      → Keeps Stored (do
        messages ← wrap_error "get messages" (Messages.find_by_conversation_id conv.id)
        result ←
            wrap_error "workflow run"
              (outside (uc.engine.run (workflow_input uc input conv messages)))
        conclude uc fresh now input conv result result.requires_approval)
  rest-Stored uc now conv = bind-Keeps Stored _ _ (wrap-Stored _ _ (find-Stored _)) λ messages.
      bind-Keeps Stored _ _ (wrap-Stored _ _ (outside-Stored _))
        λ result. conclude-Stored uc now conv result result.requires_approval

  -- The conversation stands in the tables, and the id of its first message is free.
  abbrev Awaiting : World → Type 0
  Awaiting w =
      (w.faults ≡ [])
      × (any (is_opened fresh input) w.conversations ≡ true)
      × (any (Messages.has_id fresh.user_message) w.messages ≡ false)

  create_first :
      (now i : ℕ) (w : World)
      → i ≡ fresh.conversation
      → Awaiting w
      → Stored (Messages.create (new_user_message fresh.user_message now i input.content) w).1
  unfolding Messages.create new_user_message
  create_first now i w same (p, q, r) =
      rw (quiet-eq w p, r, same)
        (
          refl,
          q,
          any-append_new (is_first_message fresh input) w.messages _ (
              rw (eq_refl input.content, ==_self fresh.user_message, ==_self fresh.conversation)
                refl),
        )

  converse-Stored :
      (uc : UseCase) (now : ℕ) (conv : Conversation) (w : World)
      → conv.id ≡ fresh.conversation
      → Awaiting w
      → Stored (converse uc fresh now input conv w).1
  unfolding converse
  converse-Stored uc now conv w same b =
      then-Keeps Stored _ _ w (unfold wrap_error in create_first now conv.id w same b)
        (λ u. rest-Stored uc now conv)

  opened : ℕ → Conversation
  opened now =
      new_conversation fresh.conversation now input.user_id
        (if str_eq input.agent_type "" then "general" else input.agent_type)

  open_new :
      (now : ℕ) (w : World)
      → w.faults ≡ []
      → any (Conversations.has_id fresh.conversation) w.conversations ≡ false
      → open_conversation fresh now input none w ≡ (
        ok (opened now),
        record w { conversations = w.conversations ++ Conversations.new_row (opened now) ∷ [] },
      )
  unfolding open_conversation Conversations.create new_conversation ◌>>=◌ opened
  open_new now w p q = rw (quiet-eq w p, q) refl

  opened-Awaiting :
      (now : ℕ) (w : World)
      → w.faults ≡ []
      → any (Messages.has_id fresh.user_message) w.messages ≡ false
      → Awaiting
          (record w { conversations = w.conversations ++ Conversations.new_row (opened now) ∷ [] })
  unfolding new_conversation opened
  opened-Awaiting now w p q = (
    p,
    any-append_new (is_opened fresh input) w.conversations _
        (rw (==_self fresh.conversation, ==_self input.user_id) refl),
    q,
  )

abbrev converse_in :
    UseCase
    → Fresh
    → ℕ
    → SendMessageInput
    → Result Conversation × World
    → Result SendMessageOutput × World
converse_in uc fresh now input (r, v) = continue r (converse uc fresh now input) v

stateful-Stored :
    (uc : UseCase) (fresh : Fresh) (now : ℕ) (input : SendMessageInput) (w : World)
    → input.conversation_id ≡ none
    → w.faults ≡ []
    → any (Conversations.has_id fresh.conversation) w.conversations ≡ false
    → any (Messages.has_id fresh.user_message) w.messages ≡ false
    → Stored fresh input (stateful uc fresh now input w).1
unfolding stateful ◌>>=◌
stateful-Stored uc fresh now input w new p q r =
    let start : open_conversation fresh now input input.conversation_id w ≡ _ =
      ap (λ (c : Option ℕ). open_conversation fresh now input c w) new
      ∙ open_new fresh input now w p q in
    subst (λ z. Stored fresh input (converse_in uc fresh now input z).1) (sym start)
      (converse-Stored fresh input uc now (opened fresh input now) _
        (unfold opened new_conversation in refl) (opened-Awaiting fresh input now w p r))

-- A message to no conversation, where no statement is refused and the ids that were drawn are free,
-- leaves in the tables a conversation of its user that can be found and the message, with its
-- content, whatever the workflow does then.
pub execute-Stored :
    (uc : UseCase) (fresh : Fresh) (now : ℕ) (input : SendMessageInput) (w : World)
    → input.messages ≡ []
    → input.conversation_id ≡ none
    → w.faults ≡ []
    → any (Conversations.has_id fresh.conversation) w.conversations ≡ false
    → any (Messages.has_id fresh.user_message) w.messages ≡ false
    → Stored fresh input (execute uc fresh now input w).1
unfolding execute
execute-Stored uc fresh now input w no_messages new p q r =
    subst (λ (l : List ChatMessage). Stored fresh input (dispatch l uc fresh now input w).1)
      (sym no_messages) (stateful-Stored uc fresh now input w new p q r)
