-- ===== src/Auth/CreateUser.antt =====
-- usecase/user/create_user.go
use go_agent_api.Base.{ℕ, String, Bool, true, false}
use go_agent_api.Base.Exec.{Result, Exec, ok, err, wrap_error, pure, require, ◌>>=◌, ◌>>◌}
use go_agent_api.Entity.User.{User, new_user}
use go_agent_api.Store.World.{World}
use go_agent_api.Store.Users
use go_agent_api.Auth.Jwt.{Library}
use go_agent_api.Auth.Login.{given}

pub record CreateUserInput : Type 0 where
  pub email : String
  pub password : String
  pub name : String

-- `existing, _ :=`: an error of the search counts as no user.
abbrev pub absent : Result User → Result Bool
absent (ok u) = ok false
absent (err x) = ok true

abbrev pub not_found : Exec World User → Exec World Bool
not_found m w = (absent (m w).0, (m w).1)

-- Execute; `id` is what uuid.New() gives
unfoldable pub create_user : Library → ℕ → ℕ → CreateUserInput → Exec World User
create_user lib id now input = do
  free ← not_found (Users.find_by_email input.email)
  require free "email already registered"
  hash ← wrap_error "hash password" (given (lib.hash_password input.password))
  wrap_error "create user" (Users.create (new_user id now input.email hash input.name))
  pure (new_user id now input.email hash input.name)
