-- ===== src/Http/Routing.antt =====
-- The methods and the patterns under which main of cmd/api/main.go registers its handlers. Which
-- pattern a path matches is the router's.
use go_agent_api.Base.{
  String, some, List, [], ◌∷◌, ◌&&◌, ◌≡◌, refl, ap, sym, ◌∙◌, str_eq, first, Bool,
}
use mathlib.Core.Option.{some-injective}
use go_agent_api.Http.Server.{
  Protected, post_completions, post_conversations, get_conversations, get_one_conversation,
  post_messages, post_approve, get_tools, post_execute, post_batch, Endpoint, get_health, get_ready,
  post_register, post_login, post_refresh, protected,
}

-- the calls on the group's router, under the prefix of Route
group_route : Protected → String × String
group_route post_completions = ("POST", "/v1/chat/completions")
group_route post_conversations = ("POST", "/v1/conversations")
group_route get_conversations = ("GET", "/v1/conversations")
group_route get_one_conversation = ("GET", "/v1/conversations/{id}")
group_route post_messages = ("POST", "/v1/conversations/{id}/messages")
group_route post_approve = ("POST", "/v1/conversations/{id}/approve")
group_route get_tools = ("GET", "/v1/tools")
group_route post_execute = ("POST", "/v1/tools/execute")
group_route post_batch = ("POST", "/v1/tools/batch")

endpoint_route : Endpoint → String × String
unfolding group_route
endpoint_route get_health = ("GET", "/health")
endpoint_route get_ready = ("GET", "/ready")
endpoint_route post_register = ("POST", "/v1/auth/register")
endpoint_route post_login = ("POST", "/v1/auth/login")
endpoint_route post_refresh = ("POST", "/v1/auth/refresh")
endpoint_route (protected e) = group_route e

-- the endpoints, in the order of their registration
abbrev endpoints : List Endpoint
endpoints =
    get_health
    ∷ get_ready
    ∷ post_register
    ∷ post_login
    ∷ post_refresh
    ∷ protected post_completions
    ∷ protected post_conversations
    ∷ protected get_conversations
    ∷ protected get_one_conversation
    ∷ protected post_messages
    ∷ protected post_approve
    ∷ protected get_tools
    ∷ protected post_execute
    ∷ protected post_batch
    ∷ []

abbrev is_registered : String × String → Endpoint → Bool
is_registered (method, pattern) e =
    str_eq (endpoint_route e).0 method && str_eq (endpoint_route e).1 pattern

group-found : (e : Protected) → first (is_registered (group_route e)) endpoints ≡ some (protected e)
unfolding endpoint_route group_route
group-found post_completions = refl
group-found post_conversations = refl
group-found get_conversations = refl
group-found get_one_conversation = refl
group-found post_messages = refl
group-found post_approve = refl
group-found get_tools = refl
group-found post_execute = refl
group-found post_batch = refl

found : (e : Endpoint) → first (is_registered (endpoint_route e)) endpoints ≡ some e
unfolding endpoint_route group_route
found get_health = refl
found get_ready = refl
found post_register = refl
found post_login = refl
found post_refresh = refl
found (protected e) = group-found e

-- No two endpoints are registered under the same method and pattern, so that no registration
-- replaces another.
endpoint_route-injective : (e f : Endpoint) → endpoint_route e ≡ endpoint_route f → e ≡ f
endpoint_route-injective e f p =
    some-injective e f (sym (found e) ∙ ap (λ r. first (is_registered r) endpoints) p ∙ found f)
