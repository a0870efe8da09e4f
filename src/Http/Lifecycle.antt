-- ===== src/Http/Lifecycle.antt =====
-- main of cmd/api/main.go around the router: the connections, the server, the signal and what is
-- deferred. What the calls outside return is the record `Outcomes`.
use go_agent_api.Base.{
  ℕ, zero, if◌then◌else◌, String, Bool, true, false, List, [], ◌∷◌, ◌++◌, map, ◌≡◌, refl, any,
}
use Prim.Native.String.{◌++◌ as ◌+++◌}
use go_agent_api.Base.Exec.{Error, Result, ok, err}
use go_agent_api.Config.{Config}

-- http.Server, its fields that are set but the handler
record HttpServer : Type 0 where
  pub addr : String
  pub read_timeout : ℕ
  pub write_timeout : ℕ
  pub idle_timeout : ℕ

new_server : Config → HttpServer
new_server cfg = record {
  addr = cfg.server.host +++ ":" +++ cfg.server.port;
  read_timeout = cfg.server.read_timeout;
  write_timeout = cfg.server.write_timeout;
  idle_timeout = cfg.server.idle_timeout;
}

-- the deferred calls: cancel, db.Close, redisClient.Close and shutdownCancel
data Deferred : Type 0 where
  cancel : Deferred
  close_database : Deferred
  close_redis : Deferred
  cancel_shutdown : Deferred

data Effect : Type 0 where
  info : String → Effect
  failure : String → Error → Effect
  -- Shutdown, with its timeout
  shut_down : ℕ → Effect
  called : Deferred → Effect
  exited : ℕ → Effect

-- ListenAndServe returns an error other than ErrServerClosed before main has returned; or a signal
-- comes, with what Shutdown returns.
data Ending : Type 0 where
  not_served : Error → Ending
  signalled : Result (Unit {0}) → Ending

record Outcomes : Type 0 where
  -- NewConnection of both packages, and BuildRunnable
  pub database : Result (Unit {0})
  pub redis : Result (Unit {0})
  pub graph : Result (Unit {0})
  pub ending : Ending

-- `if err != nil`, with os.Exit, which runs nothing that is deferred
abbrev or_exit : String → Result (Unit {0}) → List Effect → List Effect
or_exit text (ok u) rest = rest
or_exit text (err x) rest = failure text x ∷ exited 1 ∷ []

abbrev shutdown_failure : Result (Unit {0}) → List Effect
shutdown_failure (ok u) = []
shutdown_failure (err x) = failure "server shutdown error" x ∷ []

module _ (cfg : Config) where
  serving : Ending → List Effect
  serving (not_served x) = failure "server error" x ∷ exited 1 ∷ []
  serving (signalled r) =
      info "shutting down server..."
      ∷ shut_down cfg.server.shutdown_timeout
      ∷ (shutdown_failure r
          ++ (info "server stopped"
              ∷ (map called (cancel_shutdown ∷ close_redis ∷ close_database ∷ cancel ∷ [])
                  ++ exited 0 ∷ [])))

  -- main, by its logs, its deferred calls and its exit
  main : Outcomes → List Effect
  unfolding serving
  main o = or_exit "failed to connect to database" o.database (
      or_exit "failed to connect to redis" o.redis (
        or_exit "failed to build chatbot graph" o.graph
          (info "starting server" ∷ serving o.ending)))

abbrev deferred : List Deferred
deferred = cancel_shutdown ∷ close_redis ∷ close_database ∷ cancel ∷ []

abbrev is_success : Effect → Bool
is_success (exited zero) = true
is_success _ = false

abbrev deferred_calls : List Effect → List Deferred
deferred_calls [] = []
deferred_calls (called d ∷ rest) = d ∷ deferred_calls rest
deferred_calls (_ ∷ rest) = deferred_calls rest

module _ (cfg : Config) where
  abbrev IsOrderly : List Effect → Type 0
  IsOrderly events = deferred_calls events ≡ (if any is_success events then deferred else [])

  serving-IsOrderly : (e : Ending) → IsOrderly (serving cfg e)
  unfolding serving
  serving-IsOrderly (not_served x) = refl
  serving-IsOrderly (signalled (ok u)) = refl
  serving-IsOrderly (signalled (err x)) = refl

  or_exit-IsOrderly :
      (text : String) (r : Result (Unit {0})) (rest : List Effect)
      → IsOrderly rest
      → IsOrderly (or_exit text r rest)
  or_exit-IsOrderly text (ok u) rest h = h
  or_exit-IsOrderly text (err x) rest h = refl

  -- Either main exits with 0 after a signal, and then everything that it opened is closed once, the
  -- last first; or it exits with 1, and closes nothing.
  main-IsOrderly : (o : Outcomes) → IsOrderly (main cfg o)
  unfolding main
  main-IsOrderly o =
      or_exit-IsOrderly _ o.database _
        (or_exit-IsOrderly _ o.redis _ (or_exit-IsOrderly _ o.graph _ (serving-IsOrderly o.ending)))
