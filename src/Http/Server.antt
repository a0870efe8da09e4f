-- ===== src/Http/Server.antt =====
-- The routes and the middleware of cmd/api/main.go, and health.go. The router has picked the
-- endpoint of a request.
use go_agent_api.Base.{Bool, true, false, if◌then◌else◌}
use go_agent_api.Store.World.{World}
use go_agent_api.Limits.{Redis}
use go_agent_api.Http.Request.{Request, Context}
use go_agent_api.Http.Response.{Handler, status_is, json, error}
use go_agent_api.Http.App.{App, Draws}
use go_agent_api.Http.Handlers.{
  register, login_user, refresh_token, list_conversations, create_conversation, send_message,
  get_conversation, approve_action,
}
use go_agent_api.Http.Completions.{chat_completions}
use go_agent_api.Http.Tools.{list_tools, execute_one, execute_batch}
use go_agent_api.Http.Middleware.{authenticate, limited, recoverer, cors}

-- the routes inside the group that authenticates
pub data Protected : Type 0 where
  post_completions : Protected
  post_conversations : Protected
  get_conversations : Protected
  get_one_conversation : Protected
  post_messages : Protected
  post_approve : Protected
  get_tools : Protected
  post_execute : Protected
  post_batch : Protected

pub data Endpoint : Type 0 where
  get_health : Endpoint
  get_ready : Endpoint
  post_register : Endpoint
  post_login : Endpoint
  post_refresh : Endpoint
  protected : Protected → Endpoint

module _ {S : Type 0} where
  -- Health
  unfoldable pub health : Handler S
  health s = (json 200 (status_is "ok"), s)

  -- Ready; the flags say whether the database and Redis answer a ping
  unfoldable pub ready : Bool → Bool → Handler S
  ready db redis s =
      if db
      then if redis
        then (json 200 (status_is "ready"), s)
        else (error 503 "REDIS_ERROR" "Redis not ready", s)
      else (error 503 "DB_ERROR" "Database not ready", s)

  abbrev pub on_world : Handler World → Handler (World × S)
  on_world handler (w, s) = ((handler w).0, ((handler w).1, s))

unfoldable pub protected_handler : App → Draws → Protected → Request → Context → Handler World
protected_handler app draws post_completions request context =
    chat_completions app draws context request
protected_handler app draws post_conversations request context =
    create_conversation app draws context request
protected_handler app draws get_conversations request context = list_conversations app draws context
protected_handler app draws get_one_conversation request context =
    get_conversation app draws context request
protected_handler app draws post_messages request context = send_message app draws context request
protected_handler app draws post_approve request context = approve_action app draws context request
protected_handler app draws get_tools request context = list_tools draws context
protected_handler app draws post_execute request context = execute_one app draws context request
protected_handler app draws post_batch request context = execute_batch app draws context request

module _ {S : Type 0} (app : App) (redis : Redis S) (draws : Draws) where
  -- the limiter of the group, where it is enabled
  abbrev pub with_limit : Bool → Context → Handler (World × S) → Handler (World × S)
  with_limit true context next = limited app draws redis context next
  with_limit false context next = next

  -- the group that authenticates
  unfoldable pub serve_protected : Protected → Request → Handler (World × S)
  unfolding authenticate limited
  serve_protected endpoint request = authenticate app draws request λ context.
      with_limit app.rate_limit_enabled context
        (on_world (protected_handler app draws endpoint request context))

  -- the handler of an endpoint; the flags are those of `ready`
  unfoldable pub route : Bool → Bool → Endpoint → Request → Handler (World × S)
  route db up get_health request = health
  route db up get_ready request = ready db up
  route db up post_register request = on_world (register app draws request)
  route db up post_login request = on_world (login_user app draws request)
  route db up post_refresh request = on_world (refresh_token app draws request)
  route db up (protected endpoint) request = serve_protected endpoint request

  -- the router with its global middleware, without the request's id and the log
  unfoldable pub serve : Bool → Bool → Endpoint → Request → Handler (World × S)
  unfolding recoverer cors
  serve db up endpoint request = recoverer (cors request (route db up endpoint request))
