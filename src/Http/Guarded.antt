-- ===== src/Http/Guarded.antt =====
-- The group of routes that Authenticate guards.
use go_agent_api.Base.{true, ◌≡◌, refl, ap, ◌⊎◌, inl, inr, Bool-cases, str_eq}
use mathlib.Core.Path.{subst}
use go_agent_api.Base.Exec.{Result, ok, err}
use go_agent_api.Entity.Token.{is_valid}
use go_agent_api.Store.World.{World}
use go_agent_api.Limits.{Redis}
use go_agent_api.Auth.Validate.{ValidateTokenResult, validate}
use go_agent_api.Auth.Sound.{Grounds, SameRows, validate_sound}
use go_agent_api.Auth.Reading.{validate-SameRows}
use go_agent_api.Http.Request.{Request}
use go_agent_api.Http.Response.{Response, error}
use go_agent_api.Http.App.{App, Draws}
use go_agent_api.Http.Middleware.{bearer, authenticate, on_session, context_of}
use go_agent_api.Http.Server.{Protected, serve_protected, protected_handler, on_world, with_limit}

-- A request that was turned away: status 401, no row changed, and Redis as it was.
pub record TurnedAway {S : Type 0} (w : World) (s : S) (out : Response × (World × S)) : Type 0 where
  pub status : out.0.status ≡ 401
  pub rows : SameRows w out.1.0
  pub redis : out.1.1 ≡ s

-- A request that was let in: a session of an active user stands behind its bearer text, with a
-- token that is valid, and it is answered as that session's, in the world that the validation left.
pub record LetIn {S : Type 0} (app : App) (redis : Redis S) (draws : Draws) (endpoint : Protected)
    (request : Request) (w : World) (s : S) (out : Response × (World × S)) : Type 0 where
  pub session : ValidateTokenResult
  pub left : World
  pub grounds : Grounds app.lib app.jwt_manager draws.now (bearer app request) w session
  pub valid : is_valid draws.now session.token ≡ true
  pub active : session.user.is_active ≡ true
  pub rows : SameRows w left
  pub answered :
      out
      ≡ with_limit app redis draws app.rate_limit_enabled
          (context_of session)
          (on_world (protected_handler app draws endpoint request (context_of session)))
          (left, s)

module _ {S : Type 0} (app : App) (redis : Redis S) (draws : Draws) (endpoint : Protected)
    (request : Request) (w : World) (s : S) where
  abbrev served : Result ValidateTokenResult → World → Response × (World × S)
  served r v =
      on_session app draws r
        (λ context.
          with_limit app redis draws app.rate_limit_enabled context
            (on_world (protected_handler app draws endpoint request context)))
        (v, s)

  validated :
      (r : Result ValidateTokenResult) (v : World)
      → validate app.lib app.jwt_manager draws.now (bearer app request) w ≡ (r, v)
      → TurnedAway w s (served r v) ⊎ LetIn app redis draws endpoint request w s (served r v)
  unfolding error
  validated (err x) v p = inl (record {
    status = refl;
    rows =
        subst (SameRows w) (ap (λ x. x.1) p)
          (validate-SameRows app.lib app.jwt_manager draws.now (bearer app request) w);
    redis = refl;
  })
  validated (ok r) v p =
      let (grounds, valid, active, touches, rows) =
        validate_sound app.lib app.jwt_manager draws.now (bearer app request) w v r p in
      inr (record {
        session = r;
        left = v;
        grounds = grounds;
        valid = valid;
        active = active;
        rows = rows;
        answered = refl;
      })

  -- A request to an endpoint of the group that authenticates is either answered with status 401,
  -- with no row changed and Redis as it was; or its bearer text is grounded in a stored token that
  -- is valid and a stored user who is active, and the endpoint's handler, behind the limiter where
  -- it is enabled, gets that session and the rows as they were.
  pub serve_protected_lem :
      TurnedAway w s (serve_protected app redis draws endpoint request (w, s))
      ⊎ LetIn app redis draws endpoint request w s
          (serve_protected app redis draws endpoint request (w, s))
  unfolding serve_protected authenticate error
  serve_protected_lem = elim (Bool-cases (str_eq request.authorization "")) [
    | inl e ↦ rw e (
        inl
          (record { status = refl; rows = record { fates = w.faults; path = refl }; redis = refl }))
    | inr e ↦ rw e (validated _ _ refl)
  ]
