-- ===== src/Store/Refinement.antt =====
-- conversation_repository.go as a map from ids to conversations.
pub mod Spec
pub mod Steps
use go_agent_api.Base.{
  ℕ, Bool, true, false, not, ◌&&◌, ==_iff, ==_self, Option, none, some, List, [], ◌∷◌, ◌++◌, map,
  ◌≡◌, refl, ap, ◌∙◌, sym, arith, first, any, ◌==◌, if◌then◌else◌, Bool-cases, inl, inr,
}
use mathlib.Core.Option
use mathlib.Core.Path.{subst}
use go_agent_api.Base.Binds.{bind_ok, pure_ok}
use go_agent_api.Base.Exec.{Error, Result, Exec, ok, err, message, wrap_error, pure, ◌>>=◌, ◌>>◌}
use go_agent_api.Entity.Any.{Object}
use go_agent_api.Entity.Conversation.{Conversation}
use go_agent_api.Store.World.{World, ConversationRow, scanned}
use go_agent_api.Store.Conversations
use go_agent_api.Store.Conversations.{conv_of, is_live, has_id, update_row, state_row, delete_row}
use go_agent_api.Store.Rows.{found, quiet, quiet-eq, is_live-update_row, is_live-state_row}
use go_agent_api.Store.Refinement.Spec.{
  Operation, create, update, update_workflow_state, delete, perform, updated, with_state, apply,
  perform_all, apply_all,
}
use go_agent_api.Store.Refinement.Steps.{perform-Implements}

-- An operation reads a map at the id alone.
apply-pointwise :
    (now : ℕ) (op : Operation) (m m' : ℕ → Option Conversation) (id : ℕ)
    → m id ≡ m' id
    → apply now op m id ≡ apply now op m' id
unfolding apply
apply-pointwise now (create c) m m' id p = rw p refl
apply-pointwise now (update c) m m' id p = rw p refl
apply-pointwise now (update_workflow_state target state) m m' id p = rw p refl
apply-pointwise now (delete target) m m' id p = rw p refl

perform_all-shows :
    (ops : List Operation) (m : ℕ → Option Conversation) (w v : World)
    → w.faults ≡ []
    → perform_all ops w ≡ (ok tt, v)
    → ((id : ℕ) → found id w ≡ m id)
    → (v.faults ≡ []) × ((id : ℕ) → found id v ≡ apply_all w.now ops m id)
unfolding perform_all apply_all
perform_all-shows [] m w v silent_before done shown =
    let (a, e) = pure_ok tt w done in
    (ap (λ (x : World). x.faults) (sym e) ∙ silent_before, λ id. ap (found id) (sym e) ∙ shown id)
perform_all-shows (op ∷ ops) m w v silent_before done shown =
    let (a, u, first_done, rest_done) = bind_ok (perform op) _ w done in
    let i = perform-Implements op w silent_before in
    let e = ap (λ (x : Result (Unit {0}) × World). x.1) (sym first_done) in
    let (silent, shows) =
      perform_all-shows ops (apply w.now op m) u v (ap (λ (x : World). x.faults) e ∙ i.faults)
        rest_done
        (λ id.
          ap (found id) e
          ∙ (i.shows (ap (λ (x : Result (Unit {0}) × World). x.0) first_done) id
              ∙ apply-pointwise w.now op _ m id (shown id))) in
    (
      silent,
      λ id.
          shows id
          ∙ ap (λ t. apply_all t ops (apply w.now op m) id) (ap (λ (x : World). x.now) e ∙ i.now),
    )

abbrev pub search_result : Option Conversation → Result Conversation
search_result none = err (message "conversation not found")
search_result (some c) = ok c

scanned-search_result :
    (o : Option Conversation)
    → scanned "find conversation by id" "conversation not found" (ok o) ≡ search_result o
scanned-search_result none = refl
scanned-search_result (some c) = refl

find_by_id-search_result :
    (id : ℕ) (w : World)
    → Conversations.find_by_id id (quiet w) ≡ (search_result (found id w), quiet w)
unfolding Conversations.find_by_id found
find_by_id-search_result id w = ap (λ r. (r, quiet w)) (scanned-search_result _)

-- When no statement is refused, and operations on conversations all succeed, a search by an id
-- afterwards gives what the map from ids to conversations that was there before, changed by each
-- operation in turn, has at the id, and changes nothing.
pub perform_all-find_by_id :
    (ops : List Operation) (w v : World) (id : ℕ)
    → w.faults ≡ []
    → perform_all ops w ≡ (ok tt, v)
    → Conversations.find_by_id id v ≡ (search_result (apply_all w.now ops (λ i. found i w) id), v)
unfolding found
perform_all-find_by_id ops w v id silent_before done =
    let (silent, shows) =
      perform_all-shows ops (λ i. found i w) w v silent_before done (λ i. refl) in
    subst (λ x. Conversations.find_by_id id x ≡ (search_result (found id x), x))
      (sym (quiet-eq v silent)) (find_by_id-search_result id v)
    ∙ ap (λ o. (search_result o, v)) (shows id)
