-- ===== src/Examples/Sessions.antt =====
-- The theorems of authentication at the small instance.
use go_agent_api.Base.{true, some, ◌≡◌, refl, first}
use go_agent_api.Base.Exec.{ok, ◌>>=◌}
use go_agent_api.Entity.User.{User}
use go_agent_api.Entity.Token.{Token, is_valid}
use go_agent_api.Store.Users
use go_agent_api.Store.Tokens
use go_agent_api.Auth.Jwt.{Claims, validate_token, hash_token, generate_access_token, hmac_key}
use go_agent_api.Auth.Validate.{ValidateTokenResult, validate, validate_api_key, check_session}
use go_agent_api.Auth.Refresh.{RefreshTokenOutput, refresh, refresh_session}
use go_agent_api.Auth.Sound.{Grounds, SameRows, validate_sound, refresh_sound}
use go_agent_api.Auth.Jwt.{Library, generate_refresh_token}
use go_agent_api.Store.World.{World}
use go_agent_api.Base.{[], ◌∷◌, false, ◌≢◌, arith, any, ◌++◌}
use go_agent_api.Entity.Token.{new_api_key}
use go_agent_api.Entity.User.{new_user, is_admin}
use go_agent_api.Auth.Login.{LoginInput, LoginOutput, login, issue, session_token}
use go_agent_api.Auth.CreateUser.{CreateUserInput, create_user}
use go_agent_api.Auth.Revoking.{revoke_all_for_user-validate}
use go_agent_api.Auth.Granting.{LoggedIn, login_ok}
use go_agent_api.Auth.Opening.{Opens, login-validate, login-validate_refresh}
use go_agent_api.Auth.Registering.{create_user_ok}
use go_agent_api.Examples.Signing.{signer, signer-Signs}
use go_agent_api.Examples.Fixtures.{alice, session, world, library, manager}

abbrev granted : ValidateTokenResult
granted = record { user = alice; token = session; touches = 7 }

validate_sound_example :
    Grounds library manager 5 "sk-1" world granted
    × (is_valid 5 session ≡ true)
    × (alice.is_active ≡ true)
    × (granted.touches ≡ session.id)
    × SameRows world world
unfolding validate validate_api_key check_session hash_token Tokens.find_by_hash Users.find_by_id
    is_valid ◌>>=◌
validate_sound_example = validate_sound library manager 5 "sk-1" world world granted refl

abbrev refreshed : RefreshTokenOutput
refreshed = record { access_token = "signed"; token_type = "Bearer"; expires_in = 900 }

refresh_sound_example :
    (c : Claims) × (token : Token) × (user : User) × (validate_token library manager 5 "signed"
      ≡ ok c)
    × (c.token_type ≡ "refresh")
    × (first (Tokens.has_id c.token_id) world.tokens ≡ some token)
    × (is_valid 5 token ≡ true)
    × (first (Users.has_id c.user_id) world.users ≡ some user)
    × (user.is_active ≡ true)
    × (generate_access_token library manager 5 user.id token.id ≡ ok refreshed.access_token)
    × SameRows world world
unfolding refresh refresh_session validate_token hmac_key generate_access_token Tokens.find_by_id
    Users.find_by_id is_valid ◌>>=◌
refresh_sound_example = refresh_sound library manager 5 "signed" world world refreshed refl

abbrev revoked : World
revoked = record world {
  tokens = session ∷ record session { id = 8; user_id = 2; token_hash = "other" } ∷ [];
}

abbrev other_library : Library
other_library = record library { sha256_hex = λ t. "other" }

abbrev bob : User
bob = record alice { id = 2; email = "bob@example.com" }

abbrev crowded : World
crowded = record revoked { users = alice ∷ bob ∷ [] }

abbrev granted_bob : ValidateTokenResult
granted_bob = record {
  user = bob;
  token = record session { id = 8; user_id = 2; token_hash = "other" };
  touches = 8;
}

revoke_all_for_user-validate_example : granted_bob.token.user_id ≢ 1
unfolding validate validate_api_key check_session hash_token Tokens.find_by_hash Users.find_by_id
    Tokens.revoke_all_for_user is_valid ◌>>=◌
revoke_all_for_user-validate_example =
    revoke_all_for_user-validate other_library manager 1 5 "sk-1" crowded
      (Tokens.revoke_all_for_user 1 crowded).1 granted_bob refl refl

abbrev pub credentials : LoginInput
credentials = record { email = "alice@example.com"; password = "secret" }

abbrev pub logged_in : LoginOutput
logged_in = record {
  access_token = "access text";
  refresh_token = "refresh text";
  token_type = "Bearer";
  expires_in = 900;
  user = alice;
}

abbrev pub unissued : World
unissued = record world { tokens = [] }

abbrev pub issued : World
issued = (login signer manager 9 "n" 5 credentials unissued).1

login_ok_example :
    LoggedIn signer manager 5 credentials
      (session_token signer 9 "n" 5 alice)
      unissued
      issued
      logged_in
unfolding login issue session_token new_api_key generate_access_token generate_refresh_token
    Users.find_by_email Tokens.create ◌>>=◌
login_ok_example = login_ok signer manager 9 "n" 5 credentials unissued issued logged_in refl

login-validate_example : Opens signer manager 9 "n" 5 6 issued logged_in "access text"
unfolding login issue session_token new_api_key generate_access_token generate_refresh_token
    Users.find_by_email Tokens.create ◌>>=◌
login-validate_example =
    login-validate signer manager 9 "n" 5 6 credentials unissued issued logged_in signer-Signs refl
      refl refl refl (omega arith) (omega arith)

login-validate_refresh_example : Opens signer manager 9 "n" 5 6 issued logged_in "refresh text"
unfolding login issue session_token new_api_key generate_access_token generate_refresh_token
    Users.find_by_email Tokens.create ◌>>=◌
login-validate_refresh_example =
    login-validate_refresh signer manager 9 "n" 5 6 credentials unissued issued logged_in
      signer-Signs refl refl refl refl (omega arith) (omega arith)

abbrev registration : CreateUserInput
registration = record { email = "carol@example.com"; password = "secret"; name = "Carol" }

abbrev carol : User
carol = new_user 3 5 "carol@example.com" "hash:secret" "Carol"

abbrev registered : World
registered = (create_user library 3 5 registration world).1

create_user_ok_example :
    (any (Users.has_id 3) world.users ≡ false)
    × (any (Users.has_email "carol@example.com") world.users ≡ false)
    × (registered.users ≡ world.users ++ carol ∷ [])
    × (first (Users.has_email "carol@example.com") registered.users ≡ some carol)
    × (library.hash_password "secret" ≡ ok carol.password_hash)
    × (carol.is_active ≡ true)
    × (is_admin carol ≡ false)
unfolding create_user new_user Users.find_by_email Users.create ◌>>=◌
create_user_ok_example = create_user_ok library 3 5 registration world registered carol refl
