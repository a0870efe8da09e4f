-- ===== src/Http/Typed.antt =====
-- Which endpoints answer with the types that the documentation gives.
use go_agent_api.Base.{
  ℕ, Bool, true, false, ◌≡◌, ◌⊎◌, inl, inr, refl, Option, none, some, List, [], ◌∷◌, map, str_eq,
  Bool-cases,
}
use go_agent_api.Entity.Any.{Any, null, boolean, number, text, instant, array, object}
use go_agent_api.Store.World.{World}
use go_agent_api.Limits.{Redis}
use go_agent_api.Tools.Spec.{ToolSpec}
use go_agent_api.Http.Request.{Request}
use go_agent_api.Http.Response.{
  Body, success, failure, stream, no_body, aborted, Payload, json, error, stream_response,
}
use go_agent_api.Http.App.{App, Draws}
use go_agent_api.Http.Server.{
  Protected, post_completions, get_tools, post_execute, post_batch, Endpoint, get_health, get_ready,
  protected, route,
}
use go_agent_api.Http.Json.{Encoder, encodable, encode_any, member, items}
use go_agent_api.Http.Json.Tools.{encode_tool, encode_function}
use go_agent_api.Http.Json.Entities.{encode_user}
use go_agent_api.Http.Json.Payloads.{encode, encode_result, envelope, body_json}
use go_agent_api.Http.Documented.{
  anything, list_of, fits, swagger_error_response, swagger_tool_data, documented,
}
use go_agent_api.Http.Yields.Routes.{route-Yields}
use go_agent_api.Http.Yields.{
  Gives, healthy, is_ready, registers, logs_in, refreshes, completes, opens, lists, shows, sends,
  decides, lists_tools, executes, batches, Covered,
}

abbrev keeps_protected : Protected → Bool
keeps_protected get_tools = true
keeps_protected post_execute = true
keeps_protected post_batch = true
keeps_protected _ = false

-- the endpoints whose successes have their documented type
abbrev pub keeps_type : Endpoint → Bool
keeps_type get_health = true
keeps_type get_ready = true
keeps_type (protected e) = keeps_protected e
keeps_type _ = false

-- A success is not encoded, or it has the documented type exactly at the endpoints that keep it; a
-- refusal has the documented type; only completions are streamed.
unfoldable pub IsTyped : Encoder → Endpoint → Body → Type 0
IsTyped enc e (success p) =
    ((encodable enc (encode enc p) ≡ false) × (body_json enc (success p) ≡ none))
    ⊎ ((v : Any) × (body_json enc (success p) ≡ some v) × (fits (documented e) v ≡ keeps_type e))
IsTyped enc e (failure code message) =
    (v : Any) × (body_json enc (failure code message) ≡ some v)
    × (fits swagger_error_response v ≡ true)
IsTyped enc e (stream frames) = e ≡ protected post_completions
IsTyped enc e no_body = ⊥
IsTyped enc e (aborted x) = ⊥

module _ (enc : Encoder) where
  tools-fit :
      (l : List ToolSpec)
      → fits (list_of swagger_tool_data) (array (items (map (encode_tool enc) l))) ≡ true
  unfolding fits member encode_tool encode_function
  tools-fit [] = refl
  tools-fit (t ∷ rest) = tools-fit rest

  results-fit :
      (l : List (Option Any))
      → fits (list_of anything) (array (items (map (encode_result enc) l))) ≡ true
  unfolding fits
  results-fit [] = refl
  results-fit (r ∷ rest) = results-fit rest

  executed-fits : (v : Any) → fits (documented (protected post_execute)) (envelope v) ≡ true
  unfolding fits member
  executed-fits null = refl
  executed-fits (boolean b) = refl
  executed-fits (number n) = refl
  executed-fits (text t) = refl
  executed-fits (instant t) = refl
  executed-fits (array vs) = refl
  executed-fits (object fs) = refl

  fits-envelope :
      {e : Endpoint} {status : ℕ} {p : Payload}
      → Gives e status p
      → fits (documented e) (envelope (encode enc p)) ≡ keeps_type e
  unfolding fits member encode encode_user
  fits-envelope healthy = refl
  fits-envelope is_ready = refl
  fits-envelope registers = refl
  fits-envelope logs_in = refl
  fits-envelope refreshes = refl
  fits-envelope completes = refl
  fits-envelope opens = refl
  fits-envelope lists = refl
  fits-envelope shows = refl
  fits-envelope sends = refl
  fits-envelope (decides {o}) = elim (Bool-cases (str_eq o.response "")) [
    | inl e ↦ rw e refl
    | inr e ↦ rw e refl
  ]
  fits-envelope (lists_tools {l}) = rw (tools-fit l) refl
  fits-envelope (executes {a}) = executed-fits (encode_any enc a)
  fits-envelope (batches {l}) = rw (results-fit l) refl

  success-IsTyped :
      {e : Endpoint} {status : ℕ} {p : Payload} → Gives e status p → IsTyped enc e (success p)
  unfolding IsTyped body_json
  success-IsTyped {p} g = elim (Bool-cases (encodable enc (encode enc p))) [
    | inl y ↦ inr (envelope (encode enc p), rw y refl, fits-envelope g)
    | inr n ↦ inl (n, rw n refl)
  ]

  typed : Covered λ e. λ r. IsTyped enc e r.body
  unfolding IsTyped json error stream_response body_json fits member
  typed = record {
    refuses = λ e. λ status. λ code. λ message. (_, refl, refl);
    accepts = λ e. λ status. λ p. λ g. success-IsTyped g;
    streams = λ frames. refl;
    rewrites = λ e. λ r. λ headers. λ h. h;
  }

module _ {S : Type 0} (enc : Encoder) (app : App) (redis : Redis S) (draws : Draws) where
  -- Every request that reaches an endpoint is answered, without a panic: a refusal has the
  -- documented type; a success that the encoder accepts has the type documented for its endpoint
  -- exactly at health, readiness, the list of tools and the two executions of tools, and one that
  -- the encoder refuses has no body at all; and only a completion is answered by a stream.
  pub route-IsTyped :
      (db up : Bool) (endpoint : Endpoint) (request : Request) (s : World × S)
      → IsTyped enc endpoint (route app redis draws db up endpoint request s).0.body
  route-IsTyped db up endpoint request s =
      (route-Yields (λ e. λ r. IsTyped enc e r.body) (typed enc) app draws redis db up endpoint
          request).yields
        s
