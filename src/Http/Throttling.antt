-- ===== src/Http/Throttling.antt =====
-- The limiter in its place: behind Authenticate, before the handlers, over a sequence of requests.
use go_agent_api.Base.{
  ℕ, ◌+◌, ◌-◌, ◌≤◌, String, Bool, true, false, some, ◌||◌, ◌==◌, List, [], ◌∷◌, ◌≡◌, ◌≢◌, refl, sym,
  ◌⊎◌, inl, inr, arith, str_eq, if◌then◌else◌, Bool-cases, eq_refl,
}
use mathlib.Core.Path.{subst}
use go_agent_api.Base.Exec.{Result, ok, err, error_text}
use go_agent_api.Entity.Token.{Token}
use go_agent_api.Store.World.{World}
use go_agent_api.Limits.{Redis, Verdict, passed, counted, over_minute, over_day, limit}
use go_agent_api.Limits.Counting.{Counts, lets, limit-Stepped, limit-keeps, limit-passed}
use go_agent_api.Auth.Validate.{ValidateTokenResult, validate}
use go_agent_api.Http.Request.{Request}
use go_agent_api.Http.Response.{Handler, Response, error}
use go_agent_api.Http.App.{App, Draws}
use go_agent_api.Http.Middleware.{bearer, authenticate, limited, on_session, on_verdict, context_of}
use go_agent_api.Http.Server.{Protected, serve_protected, protected_handler, on_world, with_limit}

-- a request to an endpoint of the group, with what it draws
pub record Call : Type 0 where
  pub draws : Draws
  pub endpoint : Protected
  pub request : Request

-- whether a request got past Authenticate and the limiter, by the status of its answer
abbrev pub let_through : Response → ℕ
let_through r = if r.status == 401 || r.status == 429 then 0 else 1

-- The requests with a minute's key are those of a token with a limit; others have other keys.
abbrev IsKeyed : String → ℕ → Draws → Result ValidateTokenResult → Type 0
IsKeyed key most draws (err x) = Unit
IsKeyed key most draws (ok r) =
    ((draws.minute_key ≡ key)
      × (r.token.rate_limit_per_minute ≡ most)
      × (str_eq draws.day_key key ≡ false)
      × (str_eq key draws.day_key ≡ false))
    ⊎ ((str_eq draws.minute_key key ≡ false) × (str_eq draws.day_key key ≡ false))

module _ {S : Type 0} (app : App) (redis : Redis S) where
  abbrev pub serve_call : Call → World × S → Response × (World × S)
  serve_call call x = serve_protected app redis call.draws call.endpoint call.request x

  abbrev validated : Call → World → Result ValidateTokenResult × World
  validated call w = validate app.lib app.jwt_manager call.draws.now (bearer app call.request) w

  module _ (key : String) where
    abbrev through_by : Call → Response → ℕ
    through_by call r = if str_eq call.draws.minute_key key then let_through r else 0

    -- the requests with a key that get through, of a sequence of requests
    unfoldable pub all_through : List Call → World × S → ℕ
    all_through [] x = 0
    all_through (call ∷ rest) x =
        through_by call (serve_call call x).0 + all_through rest (serve_call call x).1

    -- that each request of the sequence is keyed, when its turn comes
    unfoldable pub AllKeyed : ℕ → List Call → World × S → Type 0
    AllKeyed most [] x = Unit
    AllKeyed most (call ∷ rest) x =
        IsKeyed key most call.draws (validated call x.0).0
        × AllKeyed most rest (serve_call call x).1

  module _ (counts : Counts redis) (key : String) (most : ℕ) where
    -- What a request leaves of the limit, with what it takes.
    abbrev Pays : Call → S → Response × (World × S) → Type 0
    Pays call s out =
        through_by key call out.0 + (most - counts.value key out.1.1) ≤ most - counts.value key s

    verdict_through :
        (draws : Draws) (v : Verdict) (rate : ℕ) (h : Handler World) (x : World × S)
        → v ≢ passed
        → (let_through (on_verdict app draws v rate (on_world h) x).0 ≤ lets v)
          × ((on_verdict app draws v rate (on_world h) x).1.1 ≡ x.1)
    unfolding error
    verdict_through draws passed rate h x not_passed = absurd (not_passed refl)
    verdict_through draws (counted n) rate h x not_passed = (ground arith, refl)
    verdict_through draws over_minute rate h x not_passed = (omega arith, refl)
    verdict_through draws over_day rate h x not_passed = (omega arith, refl)

    keyed_room :
        (minute_key day_key : String) (token : Token) (s : S)
        → minute_key ≡ key
        → token.rate_limit_per_minute ≡ most
        → str_eq day_key key ≡ false
        → str_eq key day_key ≡ false
        → lets (limit redis minute_key day_key (some token) s).0
            + (most - counts.value key (limit redis minute_key day_key (some token) s).1)
          ≤ most - counts.value key s
    keyed_room minute_key day_key token s named rate other other' =
        let (value, room, _, _) =
          limit-Stepped redis counts minute_key day_key token s
            (subst (λ k. str_eq day_key k ≡ false) (sym named) other)
            (subst (λ k. str_eq k day_key ≡ false) (sym named) other') in
        rw (sym named, sym rate, value) room

    limited-Pays :
        (call : Call) (session : ValidateTokenResult) (v : World) (s : S)
        → IsKeyed key most call.draws (ok session)
        → Pays call s (
            limited app call.draws redis
              (context_of session)
              (on_world
                (protected_handler app call.draws call.endpoint call.request (context_of session)))
              (v, s))
    unfolding limited
    limited-Pays call session v s keyed =
        let draws = call.draws in
        let out = limit redis draws.minute_key draws.day_key (some session.token) s in
        let (bound, kept) =
          verdict_through draws out.0 session.token.rate_limit_per_minute
            (protected_handler app draws call.endpoint call.request (context_of session)) (v, out.1)
            (limit-passed redis counts draws.minute_key draws.day_key session.token s) in
        elim keyed [
          | inl (named, rate, other, other') ↦
              let same : str_eq draws.minute_key key ≡ true = rw named (eq_refl key) in
              rw (same, kept)
                (omega (
                  arith,
                  bound,
                  keyed_room draws.minute_key draws.day_key session.token s named rate other other',
                ))
          | inr (other, other') ↦
              rw
                (
                  other,
                  kept,
                  limit-keeps redis counts draws.minute_key draws.day_key session.token key s other
                      other',
                )
                (omega arith)
        ]

    refused-Pays :
        (call : Call) (r : Response) (w : World) (s : S)
        → let_through r ≡ 0
        → Pays call s (r, (w, s))
    refused-Pays call r w s e = elim (Bool-cases (str_eq call.draws.minute_key key)) [
      | inl p ↦ rw (p, e) (omega arith)
      | inr p ↦ rw p (omega arith)
    ]

    session-Pays :
        (call : Call) (r : Result ValidateTokenResult) (v : World) (s : S) (b : Bool)
        → b ≡ true
        → IsKeyed key most call.draws r
        → Pays call s (
            on_session app call.draws r
              (λ context.
                with_limit app redis call.draws b context
                  (on_world (protected_handler app call.draws call.endpoint call.request context)))
              (v, s))
    unfolding error
    session-Pays call (err x) v s b enabled keyed =
        refused-Pays call (error 401 "INVALID_TOKEN" (error_text x)) v s refl
    session-Pays call (ok session) v s true enabled keyed = limited-Pays call session v s keyed
    session-Pays call (ok session) v s false enabled keyed = absurd (ground (arith, enabled))

    serve-Pays :
        (call : Call) (w : World) (s : S)
        → app.rate_limit_enabled ≡ true
        → IsKeyed key most call.draws (validated call w).0
        → Pays call s (serve_call call (w, s))
    unfolding serve_protected authenticate error
    serve-Pays call w s enabled keyed = elim (Bool-cases (str_eq call.request.authorization "")) [
      | inl e ↦
          rw e
            (refused-Pays call (error 401 "UNAUTHORIZED" "Missing authorization header") w s refl)
      | inr e ↦ rw e (
          session-Pays call (validated call w).0 (validated call w).1 s app.rate_limit_enabled
            enabled keyed)
    ]

    -- Where the limiter is enabled and Redis does what its documentation says, of any sequence of
    -- requests to the group that authenticates, of one token in one minute and of others between
    -- them, no more of that token are answered with a status other than 401 and 429 than its limit
    -- leaves after those counted before.
    pub all_through-bound :
        (calls : List Call) (w : World) (s : S)
        → app.rate_limit_enabled ≡ true
        → AllKeyed key most calls (w, s)
        → all_through key calls (w, s) ≤ most - counts.value key s
    unfolding all_through AllKeyed
    all_through-bound [] w s enabled keyed = omega arith
    all_through-bound (call ∷ rest) w s enabled (here, later) =
        let next = (serve_call call (w, s)).1 in
        omega (
          arith,
          serve-Pays call w s enabled here,
          all_through-bound rest next.0 next.1 enabled later,
        )
