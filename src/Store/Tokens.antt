-- ===== src/Store/Tokens.antt =====
-- token_repository.go. A trigger of the table sets `updated_at` on each update.
use go_agent_api.Base.{
  ℕ, String, Bool, true, not, ◌&&◌, ◌||◌, none, some, List, [], ◌∷◌, ◌++◌, map, length, str_eq,
  ◌==◌, ltb, first, any, select, if◌then◌else◌,
}
use go_agent_api.Base.Exec.{Exec, ok}
use go_agent_api.Entity.Token.{Token}
use go_agent_api.Store.Links.{clear_tokens}
use go_agent_api.Store.World.{World, read_one, run, writes, refused_if, gets}

abbrev pub has_id : ℕ → Token → Bool
has_id id t = t.id == id

abbrev pub has_hash : String → Token → Bool
has_hash hash t = str_eq t.token_hash hash

abbrev pub has_user : ℕ → Token → Bool
has_user user_id t = t.user_id == user_id

-- The row that Create inserts: the column last_used_at is not given, and so NULL.
abbrev pub new_row : Token → Token
new_row token = record token { last_used_at = none }

unfoldable pub create : Token → Exec World (Unit {0})
unfolding run
create token = run "create token" (
    refused_if (λ w. any (λ t. has_id token.id t || has_hash token.token_hash t) w.tokens)
      (λ w. record w { tokens = w.tokens ++ new_row token ∷ [] }))

unfoldable pub find_by_hash : String → Exec World Token
unfolding read_one
find_by_hash hash = read_one "scan token" "token not found" (λ w. first (has_hash hash) w.tokens)

unfoldable pub find_by_id : ℕ → Exec World Token
unfolding read_one
find_by_id id = read_one "scan token" "token not found" (λ w. first (has_id id) w.tokens)

-- `ordered` is the order by `created_at`, newest first.
unfoldable pub find_by_user_id : (List Token → List Token) → ℕ → Exec World (List Token)
unfolding run
find_by_user_id ordered user_id =
    run "find tokens by user id" (gets (λ w. ordered (select (has_user user_id) w.tokens)))

abbrev pub touch_row : ℕ → ℕ → ℕ → Token → Token
touch_row now time id t =
    if has_id id t then record t { last_used_at = some time; updated_at = now } else t

-- `time` is what time.Now() gives.
unfoldable pub update_last_used : ℕ → ℕ → Exec World (Unit {0})
unfolding run
update_last_used time id =
    run "update last used"
      (writes (λ w. record w { tokens = map (touch_row w.now time id) w.tokens }))

abbrev pub revoke_row : ℕ → (Token → Bool) → Token → Token
revoke_row now test t = if test t then record t { is_revoked = true; updated_at = now } else t

unfoldable pub revoke : ℕ → Exec World (Unit {0})
unfolding run
revoke id =
    run "revoke token"
      (writes (λ w. record w { tokens = map (revoke_row w.now (has_id id)) w.tokens }))

unfoldable pub revoke_all_for_user : ℕ → Exec World (Unit {0})
unfolding run
revoke_all_for_user user_id =
    run "revoke all tokens for user"
      (writes (λ w. record w { tokens = map (revoke_row w.now (has_user user_id)) w.tokens }))

-- the rows with `expires_at < NOW()`; returns how many there were
unfoldable pub delete_expired : Exec World ℕ
unfolding run
delete_expired = run "delete expired tokens" (λ w. (
  ok (length (select (λ t. ltb t.expires_at w.now) w.tokens)),
  record w {
    tokens = select (λ t. not (ltb t.expires_at w.now)) w.tokens;
    executions =
        clear_tokens (λ id. any (λ t. has_id id t && ltb t.expires_at w.now) w.tokens) w.executions;
  },
))
