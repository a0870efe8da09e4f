-- ===== src/Chat/Pausing.antt =====
-- What is left in the database when a workflow pauses for an approval.
use go_agent_api.Base.{
  ℕ, String, Bool, true, false, none, some, List, [], ◌∷◌, map, ◌≡◌, ◌≢◌, refl, ap, ◌∙◌, arith,
  first,
}
use mathlib.Core.Path.{subst}
use go_agent_api.Base.Exec.{Exec, ok, wrap_error, pure, ◌>>=◌}
use go_agent_api.Base.Binds.{bind_ok, wrap_ok}
use go_agent_api.Entity.Any.{text}
use go_agent_api.Entity.Conversation.{Conversation, request_approval}
use go_agent_api.Workflow.Engine.{WorkflowOutput}
use go_agent_api.Store.World.{World, ConversationRow, outside}
use go_agent_api.Tools.Registry.{History}
use go_agent_api.Entity.Message.{Message}
use go_agent_api.Store.Messages
use go_agent_api.Store.Conversations
use go_agent_api.Store.Conversations.{is_live, update_row, state_row}
use go_agent_api.Store.Rows.{
  quiet-eq, found, first-update, first-state, first_passes, update_row-live, state_row-keeps,
}
use go_agent_api.Chat.SendMessage.{
  SendMessageInput, SendMessageOutput, UseCase, Fresh, reason_value, pause, answer, conclude,
  converse,
}

-- The conversation as the last Update of a pause writes it: its workflow state is the one that the
-- use case had read, not the paused state.
abbrev pub paused_conversation : ℕ → ℕ → Conversation → WorkflowOutput → Conversation → Conversation
paused_conversation now db_now conv result stored =
    record (request_approval now result.agent_type (reason_value result.approval_reason) conv) {
      user_id = stored.user_id;
      created_at = stored.created_at;
      updated_at = db_now;
    }

found_after :
    (now db_now : ℕ) (conv : Conversation) (result : WorkflowOutput) (rows : List ConversationRow)
    (r : ConversationRow)
    → first (is_live conv.id) rows ≡ some r
    → Conversations.conv_of (
        first (is_live conv.id) (
          map
            (update_row db_now
              (request_approval now result.agent_type (reason_value result.approval_reason) conv))
            (map
              (state_row db_now conv.id (("paused_state", text result.paused_state_json) ∷ []))
              rows)))
      ≡ some (paused_conversation now db_now conv result r.conv)
unfolding request_approval
found_after now db_now conv result rows r p =
    let x = ("paused_state", text result.paused_state_json) ∷ [] in
    let c = request_approval now result.agent_type (reason_value result.approval_reason) conv in
    let q = first-state db_now conv.id x rows r p in
    let u =
      first-update db_now c (map (state_row db_now conv.id x) rows) (state_row db_now conv.id x r)
        q in
    let live =
      first_passes (is_live conv.id) (map (state_row db_now conv.id x) rows)
        (state_row db_now conv.id x r) q in
    let (owner, created) = state_row-keeps db_now conv.id x r in
    ap Conversations.conv_of u
    ∙ ap some (
        update_row-live db_now c (state_row db_now conv.id x r) live ∙ λ i. record c {
          user_id = owner i;
          created_at = created i;
          updated_at = db_now;
        })

-- A pause of a conversation that can be found, when no statement is refused: what can be found
-- afterwards under its id is pending, and holds the workflow state that the use case had read.
pub pause-found :
    (now : ℕ) (conv : Conversation) (result : WorkflowOutput) (w : World) (r : ConversationRow)
    → w.faults ≡ []
    → first (is_live conv.id) w.conversations ≡ some r
    → ((pause now conv result w).1.faults ≡ [])
      × (found conv.id (pause now conv result w).1
          ≡ some (paused_conversation now w.now conv result r.conv))
unfolding pause found Conversations.update_workflow_state Conversations.update ◌>>=◌
pause-found now conv result w r p q =
    rw (quiet-eq w p) (refl, found_after now w.now conv result w.conversations r q)

-- What a quiet stage that returns leaves alone.
abbrev pub Untouched : World → World → Type 0
Untouched w v = (v.faults ≡ []) × (v.conversations ≡ w.conversations) × (v.now ≡ w.now)

Untouched-create : (m : Message) (w : World) → w.faults ≡ [] → Untouched w (Messages.create m w).1
unfolding Messages.create
Untouched-create m w p = rw (quiet-eq w p) (ground arith)

Untouched-find :
    (id : ℕ) (w : World) → w.faults ≡ [] → Untouched w (Messages.find_by_conversation_id id w).1
unfolding Messages.find_by_conversation_id
Untouched-find id w p = rw (quiet-eq w p) (refl, refl, refl)

Untouched-outside :
    {A : Type 0} (m : Exec History A) (w : World) → w.faults ≡ [] → Untouched w (outside m w).1
unfolding outside
Untouched-outside m w p = (p, refl, refl)

-- An answer that was given names its message.
answer_ok :
    (uc : UseCase) (fresh : Fresh) (now : ℕ) (input : SendMessageInput) (conv : Conversation)
    (result : WorkflowOutput) (w w' : World) (o : SendMessageOutput)
    → answer uc fresh now input conv result w ≡ (ok o, w')
    → o.message ≢ none
unfolding answer
answer_ok uc fresh now input conv result w w' o p q =
    let (a, v, b, c) = bind_ok _ _ w p in
    let (d, x, e, f) = bind_ok _ _ v c in unfold pure in ground (arith, f)

conclude_ok :
    (uc : UseCase) (fresh : Fresh) (now : ℕ) (input : SendMessageInput) (conv : Conversation)
    (result : WorkflowOutput) (b : Bool) (w w' : World) (o : SendMessageOutput)
    → o.message ≡ none
    → conclude uc fresh now input conv result b w ≡ (ok o, w')
    → pause now conv result w ≡ (ok o, w')
conclude_ok uc fresh now input conv result true w w' o n p = p
conclude_ok uc fresh now input conv result false w w' o n p =
    absurd (answer_ok uc fresh now input conv result w w' o p n)

second {ℓ} : {A B : Type ℓ} {x y : A × B} → x ≡ y → x.1 ≡ y.1
second p i = (p i).1

-- The state after a stage that returned.
after_stage :
    {A : Type 0} (t : String) (m : Exec World A) (w : World) {a : A} {v : World}
    → wrap_error t m w ≡ (ok a, v)
    → Untouched w (m w).1
    → Untouched w v
after_stage t m w p q = subst (Untouched w) (second (wrap_ok t m w p)) q

-- A conversation that returned no message has paused.
pub converse_paused :
    (uc : UseCase) (fresh : Fresh) (now : ℕ) (input : SendMessageInput) (conv : Conversation)
    (w w' : World) (o : SendMessageOutput)
    → w.faults ≡ []
    → o.message ≡ none
    → converse uc fresh now input conv w ≡ (ok o, w')
    → (result : WorkflowOutput) × (v : World) × Untouched w v
      × (pause now conv result v ≡ (ok o, w'))
unfolding converse
converse_paused uc fresh now input conv w w' o p n q =
    let (a, v, b, c) = bind_ok _ _ w q in
    let (v0, v1, v2) = after_stage _ _ w b (Untouched-create _ w p) in
    let (ms, x, d, e) = bind_ok _ _ v c in
    let (x0, x1, x2) = after_stage _ _ v d (Untouched-find conv.id v v0) in
    let (result, y, f, g) = bind_ok _ _ x e in
    let (y0, y1, y2) = after_stage _ _ x f (Untouched-outside _ x x0) in
    (
      result,
      y,
      (y0, y1 ∙ (x1 ∙ v1), y2 ∙ (x2 ∙ v2)),
      conclude_ok uc fresh now input conv result result.requires_approval y w' o n g,
    )
