-- ===== src/Examples/Throttled.antt =====
-- A sequence of requests behind the limiter.
use go_agent_api.Base.{List, [], ◌∷◌, ◌≤◌, ◌≡◌, refl, inl}
use go_agent_api.Base.Exec.{◌>>=◌}
use go_agent_api.Base.Texts.{trim_prefix}
use go_agent_api.Entity.Token.{is_valid}
use go_agent_api.Store.Users
use go_agent_api.Store.Tokens
use go_agent_api.Auth.Jwt.{hash_token}
use go_agent_api.Auth.Validate.{validate, validate_api_key, check_session}
use go_agent_api.Limits.{limit, limit_minute, limit_day, count}
use go_agent_api.Http.Middleware.{authenticate, limited}
use go_agent_api.Http.Response.{error, json}
use go_agent_api.Http.Tools.{list_tools}
use go_agent_api.Http.Server.{get_tools, protected_handler, serve_protected}
use go_agent_api.Http.Throttling.{Call, all_through, AllKeyed, all_through-bound}
use go_agent_api.Examples.Fixtures.{world}
use go_agent_api.Examples.Requests.{counters, counters-Counts, unused}
use go_agent_api.Examples.Server.{app, draws, request}

abbrev call : Call
call = record { draws = draws; endpoint = get_tools; request = request }

-- one request more than the token's limit
abbrev calls : List Call
calls = call ∷ call ∷ call ∷ []

calls-AllKeyed : AllKeyed app counters "minute" 2 calls (world, unused)
unfolding AllKeyed validate validate_api_key check_session hash_token Tokens.find_by_hash
    Users.find_by_id is_valid trim_prefix serve_protected authenticate limited limit limit_minute
    limit_day count list_tools protected_handler ◌>>=◌
calls-AllKeyed = (
  inl (refl, refl, refl, refl),
  (inl (refl, refl, refl, refl), (inl (refl, refl, refl, refl), tt)),
)

all_through-bound_example : all_through app counters "minute" calls (world, unused) ≤ 2
unfolding counters-Counts
all_through-bound_example =
    all_through-bound app counters counters-Counts "minute" 2 calls world unused refl calls-AllKeyed

-- two of the three are let through
through : all_through app counters "minute" calls (world, unused) ≡ 2
unfolding all_through validate validate_api_key check_session hash_token Tokens.find_by_hash
    Users.find_by_id is_valid trim_prefix serve_protected authenticate limited limit limit_minute
    limit_day count list_tools protected_handler error json ◌>>=◌
through = refl
