-- ===== src/Auth/Refresh.antt =====
-- refresh_token.go
use go_agent_api.Base.{ℕ, String, str_eq}
use go_agent_api.Base.Exec.{Exec, wrap_error, replace_error, pure, require, ◌>>=◌, ◌>>◌}
use go_agent_api.Entity.Token.{is_valid}
use go_agent_api.Store.World.{World}
use go_agent_api.Store.Users
use go_agent_api.Store.Tokens
use go_agent_api.Auth.Jwt.{Library, JwtManager, Claims, validate_token, generate_access_token}
use go_agent_api.Auth.Login.{given}

pub record RefreshTokenOutput : Type 0 where
  pub access_token : String
  pub token_type : String
  pub expires_in : ℕ

-- what follows the check of the claims
unfoldable pub refresh_session : Library → JwtManager → ℕ → Claims → Exec World RefreshTokenOutput
refresh_session lib m now claims = do
  token ← replace_error "token not found" (Tokens.find_by_id claims.token_id)
  require (is_valid now token) "token is expired or revoked"
  user ← replace_error "user not found" (Users.find_by_id claims.user_id)
  require user.is_active "user account is inactive"
  access_token ←
      wrap_error "generate access token" (given (generate_access_token lib m now user.id token.id))
  pure (record { access_token = access_token; token_type = "Bearer"; expires_in = 900 })

-- Execute
unfoldable pub refresh : Library → JwtManager → ℕ → String → Exec World RefreshTokenOutput
refresh lib m now refresh_token = do
  claims ← wrap_error "invalid refresh token" (given (validate_token lib m now refresh_token))
  require (str_eq claims.token_type "refresh") "not a refresh token"
  refresh_session lib m now claims
