-- ===== src/Http/Middleware.antt =====
-- internal/infrastructure/http/middleware: auth.go, recovery.go, cors.go and the answers of
-- ratelimit.go, whose counters are in Limits.
use go_agent_api.Base.{ℕ, String, Option, none, some, [], ◌∷◌, ◌++◌, str_eq, if◌then◌else◌}
use go_agent_api.Base.Texts.{trim_prefix}
use go_agent_api.Base.Exec.{Result, ok, err, error_text}
use go_agent_api.Base.Table.{Map, insert}
use go_agent_api.Entity.Token.{Token}
use go_agent_api.Store.World.{World}
use go_agent_api.Auth.Validate.{ValidateTokenResult, validate}
use go_agent_api.Limits.{Redis, Verdict, passed, counted, over_minute, over_day, limit}
use go_agent_api.Http.Request.{Request, Context}
use go_agent_api.Http.Response.{Handler, Response, Body, failure, no_body, aborted, error}
use go_agent_api.Http.App.{App, Draws}

-- the text that is validated
abbrev pub bearer : App → Request → String
bearer app request = app.trim_space (trim_prefix request.authorization "Bearer ")

-- context.WithValue of the user and the token
abbrev pub context_of : ValidateTokenResult → Context
context_of r = record { user = some r.user; token = some r.token }

abbrev pub no_context : Context
no_context = record { user = none; token = none }

abbrev pub session_context : Result ValidateTokenResult → Context
session_context (err x) = no_context
session_context (ok r) = context_of r

abbrev pub limit_headers : App → ℕ → String → Map String
limit_headers app rate remaining =
    ("X-RateLimit-Limit", app.decimal rate) ∷ ("X-RateLimit-Remaining", remaining) ∷ []

abbrev pub rate_of : Option Token → ℕ
rate_of none = 0
rate_of (some token) = token.rate_limit_per_minute

module _ {S : Type 0} (app : App) (draws : Draws) where
  abbrev pub on_session :
      Result ValidateTokenResult → (Context → Handler (World × S)) → Handler (World × S)
  on_session (err x) next s = (error 401 "INVALID_TOKEN" (error_text x), s)
  on_session (ok r) next s = next (context_of r) s

  -- Authenticate
  unfoldable pub authenticate : Request → (Context → Handler (World × S)) → Handler (World × S)
  authenticate request next (w, s) =
      if str_eq request.authorization ""
      then (error 401 "UNAUTHORIZED" "Missing authorization header", (w, s))
      else (let (r, v) = validate app.lib app.jwt_manager draws.now (bearer app request) w in
          on_session r next (v, s))

  -- OptionalAuth
  unfoldable pub optional_auth : Request → (Context → Handler (World × S)) → Handler (World × S)
  optional_auth request next (w, s) =
      if str_eq request.authorization ""
      then next no_context (w, s)
      else (let (r, v) = validate app.lib app.jwt_manager draws.now (bearer app request) w in
          next (session_context r) (v, s))

  -- headers that were set before the rest of a request
  abbrev pub with_headers : Map String → Response × (World × S) → Response × (World × S)
  with_headers headers (r, s) = (record r { headers = headers ++ r.headers }, s)

  abbrev pub on_verdict : Verdict → ℕ → Handler (World × S) → Handler (World × S)
  on_verdict passed rate next s = next s
  on_verdict (counted remaining) rate next s =
      with_headers (limit_headers app rate (app.decimal remaining)) (next s)
  on_verdict over_minute rate next s =
      with_headers (limit_headers app rate "0" ++ ("Retry-After", "60") ∷ [])
        (error 429 "RATE_LIMIT" "Rate limit exceeded", s)
  on_verdict over_day rate next s = (error 429 "RATE_LIMIT" "Daily rate limit exceeded", s)

  -- Limit
  unfoldable pub limited : Redis S → Context → Handler (World × S) → Handler (World × S)
  limited redis context next (w, s) =
      let (verdict, s') = limit redis draws.minute_key draws.day_key context.token s in
      on_verdict verdict (rate_of context.token) next (w, s')

abbrev pub recovered : Body → Response → Response
recovered (aborted x) r = record {
  status = 500;
  headers = insert "Content-Type" "application/json" r.headers;
  body = failure "INTERNAL_ERROR" "Internal server error";
}
recovered _ r = r

abbrev pub cors_headers : Map String
cors_headers =
    ("Access-Control-Allow-Origin", "*")
    ∷ ("Access-Control-Allow-Methods", "GET, POST, PUT, DELETE, OPTIONS, PATCH")
    ∷ ("Access-Control-Allow-Headers", "Accept, Authorization, Content-Type, X-Request-ID")
    ∷ ("Access-Control-Expose-Headers", "X-Request-ID, X-RateLimit-Limit, X-RateLimit-Remaining")
    ∷ ("Access-Control-Max-Age", "3600")
    ∷ []

abbrev pub no_content : Response
no_content = record { status = 204; headers = []; body = no_body }

module _ {S : Type 0} where
  -- Recoverer
  unfoldable pub recoverer : Handler S → Handler S
  recoverer next s = let (r, s') = next s in (recovered r.body r, s')

  -- CORS
  unfoldable pub cors : Request → Handler S → Handler S
  cors request next s =
      let (r, s') = (if str_eq request.method "OPTIONS" then (no_content, s) else next s) in
      (record r { headers = cors_headers ++ r.headers }, s')
