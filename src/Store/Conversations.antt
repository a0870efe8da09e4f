-- ===== src/Store/Conversations.antt =====
-- conversation_repository.go. A trigger of the table sets `updated_at` on each update; a deleted
-- row stays, marked.
use go_agent_api.Base.{
  ℕ, String, Bool, true, false, not, ◌&&◌, Option, none, some, List, [], ◌∷◌, ◌++◌, map, length,
  str_eq, ◌==◌, ltb, first, any, select, take, drop, if◌then◌else◌,
}
use go_agent_api.Base.Exec.{Exec}
use go_agent_api.Entity.Any.{Object}
use go_agent_api.Entity.Conversation.{
  Conversation, ConversationStatus, active, pending, completed, failed, archived,
}
use go_agent_api.Store.World.{World, ConversationRow, read_one, run, writes, refused_if, gets}

abbrev pub has_id : ℕ → ConversationRow → Bool
has_id id r = r.conv.id == id

abbrev pub is_live : ℕ → ConversationRow → Bool
is_live id r = has_id id r && not r.deleted

abbrev pub is_owned : ℕ → ConversationRow → Bool
is_owned user_id r = r.conv.user_id == user_id && not r.deleted

abbrev pub conv_of : Option ConversationRow → Option Conversation
conv_of none = none
conv_of (some r) = some r.conv

-- The row that Create inserts: the columns last_message_at, completed_at and deleted_at are not
-- given, and so NULL.
abbrev pub new_row : Conversation → ConversationRow
new_row conv = record {
  conv = record conv { last_message_at = none; completed_at = none };
  deleted = false;
}

unfoldable pub create : Conversation → Exec World (Unit {0})
unfolding run
create conv = run "create conversation" (
    refused_if (λ w. any (has_id conv.id) w.conversations)
      (λ w. record w { conversations = w.conversations ++ new_row conv ∷ [] }))

unfoldable pub find_by_id : ℕ → Exec World Conversation
unfolding read_one
find_by_id id =
    read_one "find conversation by id" "conversation not found"
      (λ w. conv_of (first (is_live id) w.conversations))

-- repository.ConversationFilter, its fields that the query reads
pub record ConversationFilter : Type 0 where
  pub status : Option ConversationStatus
  pub limit : ℕ
  pub offset : ℕ
  pub order_by : String
  pub order : String

abbrev same_status : ConversationStatus → ConversationStatus → Bool
same_status active active = true
same_status pending pending = true
same_status completed completed = true
same_status failed failed = true
same_status archived archived = true
same_status _ _ = false

abbrev status_test : Option ConversationStatus → ConversationRow → Bool
status_test none r = true
status_test (some s) r = same_status r.conv.status s

abbrev text_or : String → String → String
text_or s default = if str_eq s "" then default else s

abbrev limited : ℕ → List Conversation → List Conversation
limited limit rows = if ltb 0 limit then take limit rows else rows

-- The rows that the query selects; `ordered column direction` is the database's ORDER BY.
abbrev pub page :
    (String → String → List Conversation → List Conversation)
    → ℕ
    → ConversationFilter
    → World
    → List Conversation
page ordered user_id filter w = limited filter.limit (
    drop filter.offset (
      ordered (text_or filter.order_by "updated_at") (text_or filter.order "DESC") (
        map (λ r. r.conv)
          (select (λ r. is_owned user_id r && status_test filter.status r) w.conversations))))

unfoldable pub find_by_user_id :
    (String → String → List Conversation → List Conversation)
    → ℕ
    → ConversationFilter
    → Exec World (List Conversation)
unfolding run
find_by_user_id ordered user_id filter =
    run "find conversations by user id" (gets (page ordered user_id filter))

-- the columns that Update sets
abbrev pub update_row : ℕ → Conversation → ConversationRow → ConversationRow
update_row now c r =
    if has_id c.id r
    then record r {
      conv = record c {
        user_id = r.conv.user_id;
        created_at = r.conv.created_at;
        updated_at = now;
      };
    }
    else r

unfoldable pub update : Conversation → Exec World (Unit {0})
unfolding run
update conv =
    run "update conversation"
      (writes (λ w. record w { conversations = map (update_row w.now conv) w.conversations }))

abbrev pub state_row : ℕ → ℕ → Object → ConversationRow → ConversationRow
state_row now id state r =
    if has_id id r
    then record r { conv = record r.conv { workflow_state = state; updated_at = now } }
    else r

unfoldable pub update_workflow_state : ℕ → Object → Exec World (Unit {0})
unfolding run
update_workflow_state id state =
    run "update workflow state"
      (writes (λ w. record w { conversations = map (state_row w.now id state) w.conversations }))

abbrev pub delete_row : ℕ → ℕ → ConversationRow → ConversationRow
delete_row now id r =
    if has_id id r then record { conv = record r.conv { updated_at = now }; deleted = true } else r

unfoldable pub delete : ℕ → Exec World (Unit {0})
unfolding run
delete id =
    run "delete conversation"
      (writes (λ w. record w { conversations = map (delete_row w.now id) w.conversations }))

unfoldable pub count_by_user_id : ℕ → Exec World ℕ
unfolding run
count_by_user_id user_id =
    run "count conversations" (gets (λ w. length (select (is_owned user_id) w.conversations)))
