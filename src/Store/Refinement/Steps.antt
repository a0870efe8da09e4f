-- ===== src/Store/Refinement/Steps.antt =====
-- conversation_repository.go as a map from ids to conversations: each operation.
use go_agent_api.Base.{
  ℕ, Bool, true, false, ==_iff, none, some, List, [], ◌∷◌, ◌++◌, map, ◌≡◌, refl, sym, arith, first,
  any, ◌==◌, if◌then◌else◌, Bool-cases, inl, inr,
}
use mathlib.Core.Option
use mathlib.Core.Path.{subst}
use go_agent_api.Base.Exec.{Error, ok, err}
use go_agent_api.Entity.Any.{Object}
use go_agent_api.Entity.Conversation.{Conversation}
use go_agent_api.Store.World.{World, ConversationRow}
use go_agent_api.Store.Conversations
use go_agent_api.Store.Conversations.{conv_of, is_live, has_id, update_row, state_row, delete_row}
use go_agent_api.Store.Rows.{found, quiet, quiet-eq, is_live-update_row, is_live-state_row}
use go_agent_api.Store.Refinement.Spec.{
  Operation, create, update, update_workflow_state, delete, perform, updated, with_state, apply,
}

some_if {ℓ} :
    {A : Type ℓ} (b : Bool) (x y : A) → some (if b then x else y) ≡ (if b then some x else some y)
some_if true x y = refl
some_if false x y = refl

-- A search in rows that an update has changed.
changed :
    (id target : ℕ) (f : ConversationRow → ConversationRow) (g : Conversation → Conversation)
    (rows : List ConversationRow)
    → ((r : ConversationRow) → is_live id (f r) ≡ is_live id r)
    → ((r : ConversationRow)
        → is_live id r ≡ true
        → (f r).conv ≡ (if id == target then g r.conv else r.conv))
    → conv_of (first (is_live id) (map f rows)) ≡ (
        if id == target
        then Option.map g (conv_of (first (is_live id) rows))
        else conv_of (first (is_live id) rows))
changed id target f g [] live does = ground arith
changed id target f g (r ∷ rows) live does = elim (Bool-cases (is_live id r)) [
  | inl e ↦ rw (live r, e, does r e) (some_if (id == target) (g r.conv) r.conv)
  | inr e ↦ rw (live r, e) (changed id target f g rows live does)
]

removed :
    (id target now : ℕ) (rows : List ConversationRow)
    → conv_of (first (is_live id) (map (delete_row now target) rows))
      ≡ (if id == target then none else conv_of (first (is_live id) rows))
removed id target now [] = ground arith
removed id target now (r ∷ rows) = ground (
  arith,
  ==_iff r.conv.id target,
  ==_iff id target,
  ==_iff r.conv.id id,
  removed id target now rows,
)

appended :
    (id : ℕ) (c : Conversation) (rows : List ConversationRow)
    → any (has_id c.id) rows ≡ false
    → conv_of (first (is_live id) (rows ++ record { conv = c; deleted = false } ∷ []))
      ≡ (if id == c.id then some c else conv_of (first (is_live id) rows))
appended id c [] free = ground (arith, ==_iff id c.id, ==_iff c.id id)
appended id c (r ∷ rows) free =
    ground
      (arith, free, ==_iff r.conv.id c.id, ==_iff id c.id, ==_iff r.conv.id id, appended id c rows)

refused_ok : {x : Error} {u : Unit {0}} → err x ≡ ok u → ⊥
refused_ok p = absurd (ground (arith, p))

-- The world left by an operation that returned shows the map that the operation makes of the map
-- that was shown.
pub record Implements (op : Operation) (w : World) : Type 0 where
  pub faults : (perform op w).1.faults ≡ []
  pub now : (perform op w).1.now ≡ w.now
  pub shows :
      (perform op w).0 ≡ ok tt
      → (id : ℕ) → found id (perform op w).1 ≡ apply w.now op (λ i. found i w) id

update-Implements : (c : Conversation) (w : World) → Implements (update c) (quiet w)
unfolding perform Conversations.update apply found
update-Implements c w = record {
  faults = refl;
  now = refl;
  shows = λ p id.
      changed id c.id (update_row w.now c) (updated w.now c) w.conversations
        (is_live-update_row id w.now c)
        (λ r e. ground (arith, e, ==_iff r.conv.id c.id, ==_iff id c.id, ==_iff r.conv.id id));
}

state-Implements :
    (target : ℕ) (state : Object) (w : World)
    → Implements (update_workflow_state target state) (quiet w)
unfolding perform Conversations.update_workflow_state apply found
state-Implements target state w = record {
  faults = refl;
  now = refl;
  shows = λ p id.
      changed id target (state_row w.now target state) (with_state w.now state) w.conversations
        (is_live-state_row id w.now target state)
        (λ r e. ground (arith, e, ==_iff r.conv.id target, ==_iff id target, ==_iff r.conv.id id));
}

delete-Implements : (target : ℕ) (w : World) → Implements (delete target) (quiet w)
unfolding perform Conversations.delete apply found
delete-Implements target w = record {
  faults = refl;
  now = refl;
  shows = λ p id. removed id target w.now w.conversations;
}

create-Implements : (c : Conversation) (w : World) → Implements (create c) (quiet w)
unfolding perform Conversations.create apply found
create-Implements c w = elim (Bool-cases (any (has_id c.id) w.conversations)) [
  | inl e ↦ record {
    faults = rw e refl;
    now = rw e refl;
    shows = λ p. absurd (refused_ok (rw e at p));
  }
  | inr e ↦ record {
    faults = rw e refl;
    now = rw e refl;
    shows = λ p id. rw e (appended id (Conversations.new_row c).conv w.conversations e);
  }
]

-- Every operation does, where no statement is refused.
pub perform-Implements : (op : Operation) (w : World) → w.faults ≡ [] → Implements op w
perform-Implements op w p = subst (Implements op) (sym (quiet-eq w p)) (by_operation op)
  where
    by_operation : (op : Operation) → Implements op (quiet w)
    by_operation (create c) = create-Implements c w
    by_operation (update c) = update-Implements c w
    by_operation (update_workflow_state target state) = state-Implements target state w
    by_operation (delete target) = delete-Implements target w
