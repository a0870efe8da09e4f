-- ===== src/Examples/Login.antt =====
-- A login over HTTP at the small instance.
use go_agent_api.Base.{String, some, ◌≡◌, ◌≢◌, refl, arith, eq_iff}
use go_agent_api.Base.Texts.{trim_prefix}
use go_agent_api.Base.Exec.{◌>>=◌}
use go_agent_api.Entity.Token.{new_api_key}
use go_agent_api.Store.Users
use go_agent_api.Store.Tokens
use go_agent_api.Auth.Jwt.{generate_access_token, generate_refresh_token}
use go_agent_api.Auth.Login.{login, issue, session_token}
use go_agent_api.Http.Request.{Request, LoginRequest}
use go_agent_api.Http.Response.{on_decoded, reply}
use go_agent_api.Http.App.{App, Draws}
use go_agent_api.Http.Handlers.{login_user}
use go_agent_api.Http.Server.{
  post_messages, serve_protected, protected_handler, on_world, with_limit,
}
use go_agent_api.Http.Session.{opened, login_user-serve_protected}
use go_agent_api.Examples.Signing.{signer, signer-Signs}
use go_agent_api.Examples.Requests.{counters, unused}
use go_agent_api.Examples.Sessions.{logged_in, unissued, issued}
use go_agent_api.Examples.Server.{app, codec, draws, request}

abbrev body_of_login : LoginRequest
body_of_login = record { email = "alice@example.com"; password = "secret" }

abbrev pub signing_app : App
signing_app = record app { lib = signer; codec = record codec { login = λ t. some body_of_login } }

abbrev pub at_login : Draws
at_login = record draws { id = 9 }

abbrev later : Draws
later = record draws { now = 6 }

abbrev with_token : Request
with_token = record request { authorization = "Bearer access text" }

header_given : ◌≢◌ {A = String} with_token.authorization ""
header_given p = ground (arith, (eq_iff "Bearer access text" "").1 p)

login_user-serve_protected_example :
    serve_protected signing_app counters later post_messages with_token (issued, unused)
    ≡ with_limit signing_app counters later signing_app.rate_limit_enabled
        (opened signing_app at_login logged_in)
        (on_world (
          protected_handler signing_app later post_messages with_token
            (opened signing_app at_login logged_in)))
        (issued, unused)
unfolding login_user on_decoded reply login issue session_token new_api_key generate_access_token
    generate_refresh_token Users.find_by_email Tokens.create trim_prefix ◌>>=◌
login_user-serve_protected_example =
    login_user-serve_protected signing_app counters at_login later post_messages request with_token
      body_of_login unissued issued unused logged_in signer-Signs refl refl refl refl refl
      (omega arith) (omega arith) header_given refl
