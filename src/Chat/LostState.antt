-- ===== src/Chat/LostState.antt =====
-- Approvals, of approve_action.go, after the pause of send_message.go.
use go_agent_api.Base.{
  ℕ, String, Bool, true, false, ==_self, Option, none, some, List, [], ◌∷◌, ◌++◌, str_eq, ◌≡◌, refl,
  ap, sym, ◌∙◌, arith, first, any, if◌then◌else◌,
}
use mathlib.Core.Path.{subst₂}
use go_agent_api.Base.Exec.{Result, ok, err, message, wrap_error, pure, ◌>>=◌}
use go_agent_api.Base.Binds.{bind_ok, wrap_ok}
use go_agent_api.Base.Table.{lookup}
use go_agent_api.Entity.Conversation.{
  Conversation, pending, is_pending_approval, new_conversation, request_approval,
}
use go_agent_api.Entity.Message.{ChatMessage}
use go_agent_api.Store.World.{World, ConversationRow, refused_if}
use go_agent_api.Store.Conversations
use go_agent_api.Store.Conversations.{is_live, has_id}
use go_agent_api.Store.Rows.{quiet, quiet-eq, found, find_by_id-found, first-append_none}
use go_agent_api.Chat.Ports.{Engine}
use go_agent_api.Chat.SendMessage.{
  SendMessageInput, SendMessageOutput, UseCase, Fresh, pause, stateful, open_conversation, execute,
  dispatch,
}
use go_agent_api.Chat.Pausing.{paused_conversation, pause-found, converse_paused}
use go_agent_api.Chat.ApproveAction
use go_agent_api.Chat.ApproveAction.{ApproveInput}

-- An approval by the owner of a pending conversation without a paused state fails.
pub approve-no_state :
    (engine : Engine) (id now : ℕ) (input : ApproveInput) (w : World) (c : Conversation)
    → w.faults ≡ []
    → found input.conversation_id w ≡ some c
    → c.user_id ≡ input.user_id
    → c.status ≡ pending
    → lookup "paused_state" c.workflow_state ≡ none
    → ApproveAction.execute engine id now input w
      ≡ (err (message "no paused workflow state found in conversation"), w)
unfolding ApproveAction.execute ◌>>=◌ is_pending_approval
approve-no_state engine id now input w c p q owner status state =
    rw (find_by_id-found input.conversation_id w c p q) (rw (owner, ==_self, status, state))

-- No row of an id that no row has.
not_any-first :
    (id : ℕ) (rows : List ConversationRow)
    → any (has_id id) rows ≡ false
    → first (is_live id) rows ≡ none
not_any-first id [] p = refl
not_any-first id (r ∷ rows) p = ground (arith, not_any-first id rows)

abbrev Opened : Fresh → SendMessageInput → Conversation → World → Type 0
Opened fresh input conv v =
    (v.faults ≡ [])
    × (conv.workflow_state ≡ [])
    × (conv.id ≡ fresh.conversation)
    × (conv.user_id ≡ input.user_id)
    × (first (is_live conv.id) v.conversations ≡ some (record { conv = conv; deleted = false }))

abbrev agent_of : SendMessageInput → String
agent_of input = if str_eq input.agent_type "" then "general" else input.agent_type

created :
    (conv : Conversation) (w v : World) {u : Unit {0}}
    → w.faults ≡ []
    → Conversations.create conv w ≡ (ok u, v)
    → (v.faults ≡ [])
      × (first (is_live conv.id) v.conversations ≡ some (Conversations.new_row conv))
unfolding Conversations.create
created conv w v p q = go (any (has_id conv.id) w.conversations) refl (rw (quiet-eq w p) at q)
  where
    row : ConversationRow
    row = Conversations.new_row conv

    go :
        (b : Bool)
        → any (has_id conv.id) w.conversations ≡ b
        → wrap_error "create conversation"
            (refused_if
              (λ x. any (has_id conv.id) x.conversations)
              (λ x. record x { conversations = x.conversations ++ row ∷ [] }))
            (quiet w)
          ≡ (ok tt, v)
        → (v.faults ≡ []) × (first (is_live conv.id) v.conversations ≡ some row)
    go true e r = absurd (ground (arith, e, r))
    go false e r =
        let same : v ≡ record (quiet w) { conversations = w.conversations ++ row ∷ [] } =
          ground (arith, e, r) in
        rw same (
          refl,
          first-append_none (is_live conv.id) w.conversations (row ∷ [])
                (not_any-first conv.id w.conversations e)
              ∙ rw ==_self,
        )

Opened-new :
    (fresh : Fresh) (now : ℕ) (input : SendMessageInput) (w v : World) (conv : Conversation)
    → w.faults ≡ []
    → open_conversation fresh now input none w ≡ (ok conv, v)
    → Opened fresh input conv v
unfolding open_conversation
Opened-new fresh now input w v conv p q =
    let (a, x, b, c) = bind_ok _ _ w q in
    let conv' = new_conversation fresh.conversation now input.user_id (agent_of input) in
    let (quiet_x, row) = created conv' w x p (wrap_ok _ _ w b) in
    let same : conv' ≡ conv = unfold pure in ground (arith, c) in
    let state : x ≡ v = unfold pure in ground (arith, c) in
    subst₂ (Opened fresh input) same state
      (unfold new_conversation in (quiet_x, refl, refl, refl, row))

-- If a message that opens a new conversation pauses for an approval, and no statement is refused,
-- then an approval or rejection of that conversation by its owner fails at once, for want of the
-- paused state, and changes nothing.
pub paused_state_lost :
    (uc : UseCase) (fresh : Fresh) (now : ℕ) (input : SendMessageInput) (w w' : World)
    (o : SendMessageOutput) (engine : Engine) (id later : ℕ) (approval : ApproveInput)
    → w.faults ≡ []
    → input.messages ≡ []
    → input.conversation_id ≡ none
    → execute uc fresh now input w ≡ (ok o, w')
    → o.message ≡ none
    → approval.conversation_id ≡ fresh.conversation
    → approval.user_id ≡ input.user_id
    → ApproveAction.execute engine id later approval w'
      ≡ (err (message "no paused workflow state found in conversation"), w')
unfolding execute stateful request_approval lookup
paused_state_lost uc fresh now input w w' o engine id later approval p no_messages new q none_sent
      target owner =
    let q' = ap (λ (l : List ChatMessage). dispatch l uc fresh now input w) (sym no_messages) ∙ q in
    let (conv, v, opened, rest) = bind_ok _ _ w q' in
    let (v0, v1, v2, v3, v4) =
      Opened-new fresh now input w v conv p
        (ap (λ (c : Option ℕ). open_conversation fresh now input c w) (sym new) ∙ opened) in
    let (result, x, (x0, x1, x2), paused) =
      converse_paused uc fresh now input conv v w' o v0 none_sent rest in
    let row : ConversationRow = record { conv = conv; deleted = false } in
    let (y0, y1) = pause-found now conv result x row x0 (ap (first (is_live conv.id)) x1 ∙ v4) in
    let state : (pause now conv result x).1 ≡ w' =
      ap (λ (z : Result SendMessageOutput × World). z.1) paused in
    approve-no_state engine id later approval w' (paused_conversation now x.now conv result conv)
      (ap (λ (z : World). z.faults) (sym state) ∙ y0)
      (ap (λ (i : ℕ). found i w') (target ∙ sym v2) ∙ (ap (found conv.id) (sym state) ∙ y1))
      (v3 ∙ sym owner) refl (ap (lookup "paused_state") v1)
