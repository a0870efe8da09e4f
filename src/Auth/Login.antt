-- ===== src/Auth/Login.antt =====
-- login.go. A duration is a number of nanoseconds.
use go_agent_api.Base.{ℕ, ◌+◌, ◌*◌, String}
use go_agent_api.Base.Exec.{Result, Exec, wrap_error, replace_error, pure, require, ◌>>=◌, ◌>>◌}
use go_agent_api.Entity.User.{User}
use go_agent_api.Entity.Token.{Token, new_api_key, access}
use go_agent_api.Store.World.{World}
use go_agent_api.Store.Users
use go_agent_api.Store.Tokens
use go_agent_api.Auth.Jwt.{
  Library, JwtManager, generate_access_token, generate_refresh_token, hash_token, generate_api_key,
}

pub record LoginInput : Type 0 where
  pub email : String
  pub password : String

pub record LoginOutput : Type 0 where
  pub access_token : String
  pub refresh_token : String
  pub token_type : String
  pub expires_in : ℕ
  pub user : User

abbrev pub week : ℕ
week = 7 * 24 * 3600 * 1000000000

-- `token_id` and `nonce` are what uuid.New() gives.
unfoldable pub session_token : Library → ℕ → String → ℕ → User → Token
unfolding hash_token generate_api_key
session_token lib token_id nonce now user =
    record (new_api_key token_id now user.id (hash_token lib (generate_api_key nonce)) "session"
      (now + week)) { token_type = access }

-- a result that takes no part in the world
abbrev pub given : {A : Type 0} → Result A → Exec World A
given r w = (r, w)

unfoldable pub issue : Library → JwtManager → ℕ → User → Token → Exec World LoginOutput
issue lib m now user token = do
  wrap_error "create token" (Tokens.create token)
  access_token ←
      wrap_error "generate access token" (given (generate_access_token lib m now user.id token.id))
  refresh_token ←
      wrap_error "generate refresh token"
        (given (generate_refresh_token lib m now user.id token.id))
  pure (record {
    access_token = access_token;
    refresh_token = refresh_token;
    token_type = "Bearer";
    expires_in = 900;
    user = user;
  })

-- Execute
unfoldable pub login : Library → JwtManager → ℕ → String → ℕ → LoginInput → Exec World LoginOutput
login lib m token_id nonce now input = do
  user ← replace_error "invalid credentials" (Users.find_by_email input.email)
  require (lib.password_matches user.password_hash input.password) "invalid credentials"
  require user.is_active "user account is inactive"
  issue lib m now user (session_token lib token_id nonce now user)
