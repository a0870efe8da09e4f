-- ===== src/Auth/Validate.antt =====
-- validate_token.go. The goroutine that updates `last_used_at` is named in the result by its token,
-- and runs later.
use go_agent_api.Base.{ℕ, String, Bool, true, false}
use package.text.Mathlib.Text.{starts_with}
use go_agent_api.Base.Exec.{Exec, wrap_error, replace_error, pure, require, ◌>>=◌, ◌>>◌}
use go_agent_api.Entity.User.{User}
use go_agent_api.Entity.Token.{Token, is_valid}
use go_agent_api.Store.World.{World}
use go_agent_api.Store.Users
use go_agent_api.Store.Tokens
use go_agent_api.Auth.Jwt.{Library, JwtManager, Claims, validate_token, hash_token}
use go_agent_api.Auth.Login.{given}

pub record ValidateTokenResult : Type 0 where
  pub user : User
  pub token : Token
  -- the token that the spawned UpdateLastUsed is for
  pub touches : ℕ

-- from the token on, for the user of an id
unfoldable pub check_session : ℕ → String → Token → ℕ → Exec World ValidateTokenResult
check_session now invalid token user_id = do
  require (is_valid now token) invalid
  user ← replace_error "user not found" (Users.find_by_id user_id)
  require user.is_active "user account is inactive"
  pure (record { user = user; token = token; touches = token.id })

unfoldable pub validate_api_key : Library → ℕ → String → Exec World ValidateTokenResult
unfolding hash_token
validate_api_key lib now raw_key = do
  token ← replace_error "invalid API key" (Tokens.find_by_hash (hash_token lib raw_key))
  check_session now "API key is expired or revoked" token token.user_id

unfoldable pub validate_session : ℕ → Claims → Exec World ValidateTokenResult
validate_session now claims = do
  token ← replace_error "token not found" (Tokens.find_by_id claims.token_id)
  check_session now "token is expired or revoked" token claims.user_id

unfoldable pub validate_jwt : Library → JwtManager → ℕ → String → Exec World ValidateTokenResult
validate_jwt lib m now token = do
  claims ← wrap_error "invalid token" (given (validate_token lib m now token))
  validate_session now claims

abbrev pub by_kind : Bool → Library → JwtManager → ℕ → String → Exec World ValidateTokenResult
by_kind true lib m now raw_token = validate_api_key lib now raw_token
by_kind false lib m now raw_token = validate_jwt lib m now raw_token

-- Execute
unfoldable pub validate : Library → JwtManager → ℕ → String → Exec World ValidateTokenResult
validate lib m now raw_token = by_kind (starts_with raw_token "sk-") lib m now raw_token
