-- ===== src/Store/Users.antt =====
-- user_repository.go. A trigger of the table sets `updated_at` on each update.
use go_agent_api.Base.{
  ℕ, String, Bool, not, ◌&&◌, ◌||◌, [], ◌∷◌, ◌++◌, map, str_eq, ◌==◌, first, any, select,
  if◌then◌else◌,
}
use go_agent_api.Base.Exec.{Exec}
use go_agent_api.Entity.User.{User}
use go_agent_api.Store.Links.{clear_conversations, clear_messages, clear_tokens}
use go_agent_api.Store.World.{World, read_one, run, writes, refused_if}

abbrev pub has_id : ℕ → User → Bool
has_id id u = u.id == id

abbrev pub has_email : String → User → Bool
has_email email u = str_eq u.email email

unfoldable pub create : User → Exec World (Unit {0})
unfolding run
create user = run "create user" (
    refused_if (λ w. any (λ u. has_id user.id u || has_email user.email u) w.users)
      (λ w. record w { users = w.users ++ user ∷ [] }))

unfoldable pub find_by_id : ℕ → Exec World User
unfolding read_one
find_by_id id = read_one "find user by id" "user not found" (λ w. first (has_id id) w.users)

unfoldable pub find_by_email : String → Exec World User
unfolding read_one
find_by_email email =
    read_one "find user by email" "user not found" (λ w. first (has_email email) w.users)

abbrev pub update_row : ℕ → User → User → User
update_row now user u =
    if has_id user.id u
    then record u {
      email = user.email;
      password_hash = user.password_hash;
      name = user.name;
      role = user.role;
      is_active = user.is_active;
      metadata = user.metadata;
      updated_at = now;
    }
    else u

abbrev pub is_other : User → User → Bool
is_other user u = has_email user.email u && not (has_id user.id u)

-- the email is another user's
abbrev pub is_refused : User → World → Bool
is_refused user w = any (has_id user.id) w.users && any (is_other user) w.users

unfoldable pub update : User → Exec World (Unit {0})
unfolding run
update user =
    run "update user"
      (refused_if (is_refused user) (λ w. record w { users = map (update_row w.now user) w.users }))

-- whether a conversation, or the conversation of a message, is the user's
abbrev is_conversation_of : ℕ → World → ℕ → Bool
is_conversation_of id w conversation_id =
    any (λ r. r.conv.user_id == id && r.conv.id == conversation_id) w.conversations

-- The other tables refer to users, and to what goes with them, with ON DELETE CASCADE or SET NULL.
unfoldable pub delete : ℕ → Exec World (Unit {0})
unfolding run
delete id = run "delete user" (
    writes (λ w. record w {
      users = select (λ u. not (has_id id u)) w.users;
      tokens = select (λ t. not (t.user_id == id)) w.tokens;
      conversations = select (λ r. not (r.conv.user_id == id)) w.conversations;
      messages = select (λ m. not (is_conversation_of id w m.conversation_id)) w.messages;
      executions = clear_conversations (is_conversation_of id w) (
          clear_messages
            (λ m. any (λ x. x.id == m && is_conversation_of id w x.conversation_id) w.messages)
            (clear_tokens (λ t. any (λ x. x.id == t && x.user_id == id) w.tokens)
              (select (λ e. not (e.user_id == id)) w.executions)));
    }))
