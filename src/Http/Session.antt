-- ===== src/Http/Session.antt =====
-- A login over HTTP, and a request with the access token that it returned.
use go_agent_api.Base.{
  false, some, [], ◌+◌, ◌<◌, ◌≤◌, ◌≡◌, ◌≢◌, refl, ap, arith, first, str_eq, eq_iff, Bool-cases, inl,
  inr,
}
use package.text.Mathlib.Text.{starts_with}
use go_agent_api.Base.Exec.{Result, ok, err}
use go_agent_api.Base.Binds.{pair_path}
use go_agent_api.Store.World.{World}
use go_agent_api.Store.Users
use go_agent_api.Limits.{Redis}
use go_agent_api.Auth.Jwt.{Signs}
use go_agent_api.Auth.Login.{LoginOutput, week, session_token, login}
use go_agent_api.Auth.Opening.{Opens, login-validate}
use go_agent_api.Http.Request.{Request, Context, LoginRequest}
use go_agent_api.Http.Response.{
  Response, Body, logged_in, success, json, error, answer_of, error_with, reply, on_decoded,
}
use go_agent_api.Http.App.{App, Draws}
use go_agent_api.Http.Handlers.{login_user}
use go_agent_api.Http.Middleware.{bearer, authenticate}
use go_agent_api.Http.Server.{Protected, serve_protected, protected_handler, on_world, with_limit}

-- the session that a login at these draws opens for a user
abbrev pub opened : App → Draws → LoginOutput → Context
opened app draws o = record {
  user = some o.user;
  token = some (session_token app.lib draws.id draws.nonce draws.now o.user);
}

payload_of : Body → LoginOutput → LoginOutput
payload_of (success (logged_in o)) other = o
payload_of _ other = other

answer_ok :
    (r : Result LoginOutput) (o : LoginOutput)
    → answer_of 200 logged_in (error_with 401 "LOGIN_ERROR") r ≡ json 200 (logged_in o)
    → r ≡ ok o
unfolding json error payload_of
answer_ok (ok o') o p = ap (λ (x : Response). ok (payload_of x.body o)) p
answer_ok (err x) o p = absurd (omega (arith, ap (λ (x : Response). x.status) p))

-- If a login over HTTP is answered with status 200, the signing library does what it promises, the
-- access token does not look like an API key, and the user's id finds that user, then a request to
-- a guarded endpoint with an authorization header whose bearer text is that token, before it and the
-- session expire and where no statement is refused, is handed on, behind the limiter where it is
-- enabled, as the session of that user with the token that the login stored.
pub login_user-serve_protected :
    {S : Type 0} (app : App) (redis : Redis S) (draws later : Draws) (endpoint : Protected)
    (credentials request : Request) (req : LoginRequest) (w v : World) (s : S) (o : LoginOutput)
    → Signs app.lib
    → app.codec.login credentials.body ≡ some req
    → login_user app draws credentials w ≡ (json 200 (logged_in o), v)
    → v.faults ≡ []
    → first (Users.has_id o.user.id) w.users ≡ some o.user
    → starts_with o.access_token "sk-" ≡ false
    → later.now < app.lib.numeric_date (draws.now + app.jwt_manager.access_token_ttl)
    → later.now ≤ draws.now + week
    → request.authorization ≢ ""
    → bearer app request ≡ o.access_token
    → serve_protected app redis later endpoint request (v, s)
      ≡ with_limit app redis later app.rate_limit_enabled
          (opened app draws o)
          (on_world (protected_handler app later endpoint request (opened app draws o)))
          (v, s)
unfolding serve_protected authenticate login_user on_decoded reply Opens
login_user-serve_protected app redis draws later endpoint credentials request req w v s o signs
      decoded answered quiet stored opaque alive in_week given same =
    let out =
      login app.lib app.jwt_manager draws.id draws.nonce draws.now
        (record { email = req.email; password = req.password }) w in
    let done = rw decoded at answered in
    let granted =
      login-validate app.lib app.jwt_manager draws.id draws.nonce draws.now later.now
        (record { email = req.email; password = req.password }) w v o signs
        (pair_path out (answer_ok out.0 o (ap (λ (x : Response × World). x.0) done))
          (ap (λ (x : Response × World). x.1) done))
        quiet stored opaque alive in_week in
    elim (Bool-cases (str_eq request.authorization "")) [
      | inl e ↦ absurd (given ((eq_iff request.authorization "").0 e))
      | inr e ↦ rw (e, same, granted) refl
    ]
