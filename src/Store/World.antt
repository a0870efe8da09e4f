-- ===== src/Store/World.antt =====
-- The database and the calls made to the world outside. A statement can be refused by the database
-- for reasons of its own (a lost connection, a value that does not fit its column, a foreign key):
-- `faults` holds what becomes of each statement to come, and past its end nothing fails.
use go_agent_api.Base.{
  ℕ, String, Bool, true, false, Option, none, some, List, [], ◌∷◌, if◌then◌else◌,
}
use go_agent_api.Base.Exec.{Error, Result, Exec, ok, err, external, message, wrapped, wrap_error}
use go_agent_api.Entity.User.{User}
use go_agent_api.Entity.Token.{Token}
use go_agent_api.Entity.Conversation.{Conversation}
use go_agent_api.Entity.Message.{Message}
use go_agent_api.Entity.ToolExecution.{ToolExecution}
use go_agent_api.Tools.Registry.{History}

-- a row of `conversations`, with whether its `deleted_at` is set
pub record ConversationRow : Type 0 where
  pub conv : Conversation
  pub deleted : Bool

pub record World : Type 0 where
  pub users : List User
  pub tokens : List Token
  pub conversations : List ConversationRow
  pub messages : List Message
  pub executions : List ToolExecution
  -- the next value of the SERIAL column of `messages`
  pub next_sequence : ℕ
  -- NOW() of the database
  pub now : ℕ
  pub faults : List Bool
  pub history : History

abbrev pub refused : Error
refused = external "statement refused"

abbrev pub duplicate : Error
duplicate = external "duplicate key value violates unique constraint"

module _ {A : Type 0} where
  abbrev pub under_fault : List Bool → Exec World A → Exec World A
  under_fault [] m w = m w
  under_fault (true ∷ rest) m w = (err refused, record w { faults = rest })
  under_fault (false ∷ rest) m w = m (record w { faults = rest })

  -- One statement.
  unfoldable pub statement : Exec World A → Exec World A
  statement m w = under_fault w.faults m w

  -- A call that sees and extends the history of calls alone.
  unfoldable pub outside : Exec History A → Exec World A
  outside m w = ((m w.history).0, record w { history = (m w.history).1 })

  abbrev pub gets : (World → A) → Exec World A
  gets f w = (ok (f w), w)

module _ {A : Type 0} where
  -- What the scan of at most one row gives: pgx.ErrNoRows has a text of its own.
  abbrev pub scanned : String → String → Result (Option A) → Result A
  scanned context missing (ok none) = err (message missing)
  scanned context missing (ok (some a)) = ok a
  scanned context missing (err x) = err (wrapped context x)

  -- `QueryRow(...).Scan(...)` with its two error cases
  unfoldable pub read_one : String → String → (World → Option A) → Exec World A
  unfolding statement
  read_one context missing f w = let (r, v) = statement (gets f) w in (scanned context missing r, v)

  -- A statement whose error is wrapped.
  unfoldable pub run : String → Exec World A → Exec World A
  unfolding statement wrap_error
  run context m = wrap_error context (statement m)

-- A statement that writes and returns no row.
abbrev pub writes : (World → World) → Exec World (Unit {0})
writes f w = (ok tt, f w)

-- A statement that is refused where a unique key is taken.
abbrev pub refused_if : (World → Bool) → (World → World) → Exec World (Unit {0})
refused_if taken f w = if taken w then (err duplicate, w) else (ok tt, f w)
