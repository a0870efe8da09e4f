-- ===== src/Http/Yields/Routes.antt =====
-- The answers of the routes, with the middleware around them.
use go_agent_api.Base.{ℕ, String, Bool, true, false, if◌then◌else◌, Bool-cases, inl, inr, str_eq}
use go_agent_api.Base.Exec.{Result, ok, err}
use go_agent_api.Store.World.{World}
use go_agent_api.Limits.{Redis, Verdict, passed, counted, over_minute, over_day, limit}
use go_agent_api.Auth.Validate.{ValidateTokenResult}
use go_agent_api.Http.Request.{Request, Context}
use go_agent_api.Http.Response.{
  Handler, Response, Body, success, failure, stream, no_body, aborted, status_is, json, error,
}
use go_agent_api.Http.App.{App, Draws}
use go_agent_api.Http.Middleware.{
  authenticate, context_of, limited, on_verdict, on_session, recovered, recoverer, no_content, cors,
}
use go_agent_api.Http.Server.{
  Protected, Endpoint, get_health, get_ready, post_register, post_login, post_refresh, protected,
  health, ready, protected_handler, serve_protected, on_world, with_limit, route, serve,
}
use go_agent_api.Http.Yields.{healthy, is_ready, Covered, Yields}
use go_agent_api.Http.Yields.Handlers.{
  register-Yields, login-Yields, refresh-Yields, protected-Yields,
}

module _ (P : Response → Type 0) where
  module _ {S : Type 0} where
    on_world-Yields : (next : Handler World) → Yields P next → Yields P (on_world {S = S} next)
    on_world-Yields next h = record { yields = λ (w, s). h.yields w }

    ready-Yields :
        (db redis : Bool)
        → ((code message : String) → P (error 503 code message))
        → P (json 200 (status_is "ready"))
        → Yields {S = S} P (ready db redis)
    unfolding ready
    ready-Yields true true bad good = record { yields = λ s. good }
    ready-Yields true false bad good = record { yields = λ s. bad _ _ }
    ready-Yields false redis bad good = record { yields = λ s. bad _ _ }

module _ (P : Endpoint → Response → Type 0) (c : Covered P) (app : App) (draws : Draws) where
  module _ {S : Type 0} (redis : Redis S) where
    verdict-Yields :
        (e : Endpoint) (v : Verdict) (rate : ℕ) (next : Handler (World × S))
        → Yields (P e) next
        → Yields (P e) (on_verdict app draws v rate next)
    verdict-Yields e passed rate next h = record { yields = h.yields }
    verdict-Yields e (counted n) rate next h = record {
      yields = λ s. c.rewrites e _ _ (h.yields s);
    }
    verdict-Yields e over_minute rate next h = record {
      yields = λ s. c.rewrites e _ _ (c.refuses e 429 "RATE_LIMIT" "Rate limit exceeded");
    }
    verdict-Yields e over_day rate next h = record { yields = λ s. c.refuses e _ _ _ }

    limit-Yields :
        (e : Endpoint) (b : Bool) (ctx : Context) (next : Handler (World × S))
        → Yields (P e) next
        → Yields (P e) (with_limit app redis draws b ctx next)
    unfolding limited
    limit-Yields e false ctx next h = record { yields = h.yields }
    limit-Yields e true ctx next h = record {
      yields = λ (w, s).
          (verdict-Yields e (limit redis draws.minute_key draws.day_key ctx.token s).0 _ next
              h).yields
            (w, (limit redis draws.minute_key draws.day_key ctx.token s).1);
    }

    session-P :
        (e : Protected) (request : Request) (r : Result ValidateTokenResult) (s : World × S)
        → P
            (protected e)
            (on_session app draws r
              (λ context.
                with_limit app redis draws app.rate_limit_enabled context
                  (on_world (protected_handler app draws e request context)))
              s).0
    session-P e request (err x) s = c.refuses _ _ _ _
    session-P e request (ok r) s =
        (limit-Yields (protected e) app.rate_limit_enabled (context_of r) _
            (on_world-Yields _ _ (protected-Yields P c app draws request r e))).yields
          s

    pub serve_protected-P :
        (e : Protected) (request : Request) (w : World) (s : S)
        → P (protected e) (serve_protected app redis draws e request (w, s)).0
    unfolding serve_protected authenticate
    serve_protected-P e request w s = elim (Bool-cases (str_eq request.authorization "")) [
      | inl p ↦ rw p (c.refuses _ _ _ _)
      | inr p ↦ rw p (session-P e request _ _)
    ]

    pub route-Yields :
        (db up : Bool) (e : Endpoint) (request : Request)
        → Yields (P e) (route app redis draws db up e request)
    unfolding route health
    route-Yields db up get_health request = record { yields = λ s. c.accepts _ _ _ healthy }
    route-Yields db up get_ready request =
        ready-Yields _ db up (λ code message. c.refuses _ _ _ _) (c.accepts _ _ _ is_ready)
    route-Yields db up post_register request =
        on_world-Yields _ _ (register-Yields P c app draws request)
    route-Yields db up post_login request = on_world-Yields _ _ (login-Yields P c app draws request)
    route-Yields db up post_refresh request =
        on_world-Yields _ _ (refresh-Yields P c app draws request)
    route-Yields db up (protected e) request = record {
      yields = λ (w, s). serve_protected-P e request w s;
    }

    recovered-P : (e : Endpoint) (body : Body) (r : Response) → P e r → P e (recovered body r)
    unfolding error
    recovered-P e (aborted x) r h = c.rewrites e _ _ (c.refuses e 500 "INTERNAL_ERROR" _)
    recovered-P e (success p) r h = h
    recovered-P e (failure code message) r h = h
    recovered-P e (stream frames) r h = h
    recovered-P e no_body r h = h

    recoverer-Yields :
        (e : Endpoint) (next : Handler (World × S))
        → Yields (P e) next
        → Yields (P e) (recoverer next)
    unfolding recoverer
    recoverer-Yields e next h = record {
      yields = λ s. recovered-P e (next s).0.body (next s).0 (h.yields s);
    }

    preflight-P :
        (e : Endpoint) (b : Bool) (s : World × S) (out : Response × (World × S))
        → P e no_content
        → P e out.0
        → P e (if b then (no_content, s) else out).0
    preflight-P e true s out p h = p
    preflight-P e false s out p h = h

    cors-Yields :
        (e : Endpoint) (request : Request) (next : Handler (World × S))
        → P e no_content
        → Yields (P e) next
        → Yields (P e) (cors request next)
    unfolding cors
    cors-Yields e request next p h = record {
      yields = λ s.
          c.rewrites e _ _
            (preflight-P e (str_eq request.method "OPTIONS") s (next s) p (h.yields s));
    }

    -- The answers that leave the router, those to a preflight request included.
    pub serve-P :
        (db up : Bool) (e : Endpoint) (request : Request) (s : World × S)
        → P e no_content
        → P e (serve app redis draws db up e request s).0
    unfolding serve
    serve-P db up e request s p =
        (recoverer-Yields e _ (cors-Yields e request _ p (route-Yields db up e request))).yields s
