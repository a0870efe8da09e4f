-- ===== src/Store/Rows.antt =====
-- What the statements of conversation_repository.go do to the rows that can be found.
use go_agent_api.Base.{
  ℕ, Bool, true, ==_iff, Option, none, some, List, [], ◌∷◌, ◌++◌, map, ◌≡◌, refl, ap, ◌∙◌, arith,
  first, Bool-cases, inl, inr,
}
use mathlib.Core.Option
use go_agent_api.Base.Exec.{ok}
use go_agent_api.Entity.Any.{Object}
use go_agent_api.Entity.Conversation.{Conversation}
use go_agent_api.Store.World.{World, ConversationRow}
use go_agent_api.Store.Conversations.{is_live, conv_of, find_by_id, update_row, state_row}

module _ {ℓ} {A : Type ℓ} where
  -- A change of rows that keeps what a search tests finds the same row, changed.
  pub first-map :
      (p : A → Bool) (f : A → A) (xs : List A)
      → ((x : A) → p (f x) ≡ p x)
      → first p (map f xs) ≡ Option.map f (first p xs)
  first-map p f [] h = refl
  first-map p f (x ∷ xs) h = ground (arith, h x, first-map p f xs h)

  pub first-append_none :
      (p : A → Bool) (xs ys : List A) → first p xs ≡ none → first p (xs ++ ys) ≡ first p ys
  first-append_none p [] ys h = refl
  first-append_none p (x ∷ xs) ys h = ground (arith, first-append_none p xs ys)

-- The world in which no statement to come is refused.
abbrev pub quiet : World → World
quiet w = record w { faults = [] }

pub quiet-eq : (w : World) → w.faults ≡ [] → w ≡ quiet w
quiet-eq w p i = record w { faults = p i }

pub is_live-update_row :
    (id now : ℕ) (c : Conversation) (r : ConversationRow)
    → is_live id (update_row now c r) ≡ is_live id r
is_live-update_row id now c r = ground (arith, ==_iff r.conv.id c.id)

pub is_live-state_row :
    (id now j : ℕ) (x : Object) (r : ConversationRow)
    → is_live id (state_row now j x r) ≡ is_live id r
is_live-state_row id now j x r = ground arith

-- The conversation that can be found under an id.
unfoldable pub found : ℕ → World → Option Conversation
found id w = conv_of (first (is_live id) w.conversations)

-- A search that finds its row, when no statement is refused, changes nothing.
pub find_by_id-found :
    (id : ℕ) (w : World) (c : Conversation)
    → w.faults ≡ []
    → found id w ≡ some c
    → find_by_id id w ≡ (ok c, w)
unfolding found find_by_id
find_by_id-found id w c p q = rw (quiet-eq w p, q)

pub first_passes {ℓ} :
    {A : Type ℓ} (p : A → Bool) (xs : List A) (x : A) → first p xs ≡ some x → p x ≡ true
first_passes p [] x h = cc
first_passes p (y ∷ xs) x h = elim (Bool-cases (p y)) [
  | inl q ↦ ground (arith, q, h)
  | inr q ↦ first_passes p xs x (rw q at h)
]

-- The rows after an update of the columns of `c`, and after one of the workflow state.
pub first-update :
    (now : ℕ) (c : Conversation) (rows : List ConversationRow) (r : ConversationRow)
    → first (is_live c.id) rows ≡ some r
    → first (is_live c.id) (map (update_row now c) rows) ≡ some (update_row now c r)
first-update now c rows r p =
    first-map (is_live c.id) (update_row now c) rows (is_live-update_row c.id now c)
    ∙ ap (Option.map (update_row now c)) p

pub first-state :
    (now id : ℕ) (x : Object) (rows : List ConversationRow) (r : ConversationRow)
    → first (is_live id) rows ≡ some r
    → first (is_live id) (map (state_row now id x) rows) ≡ some (state_row now id x r)
first-state now id x rows r p =
    first-map (is_live id) (state_row now id x) rows (is_live-state_row id now id x)
    ∙ ap (Option.map (state_row now id x)) p

pub update_row-live :
    (now : ℕ) (c : Conversation) (r : ConversationRow)
    → is_live c.id r ≡ true
    → (update_row now c r).conv
      ≡ record c { user_id = r.conv.user_id; created_at = r.conv.created_at; updated_at = now }
update_row-live now c r p = ground arith

pub state_row-keeps :
    (now id : ℕ) (x : Object) (r : ConversationRow)
    → ((state_row now id x r).conv.user_id ≡ r.conv.user_id)
      × ((state_row now id x r).conv.created_at ≡ r.conv.created_at)
state_row-keeps now id x r = ground arith
