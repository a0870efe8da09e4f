-- ===== src/Http/Answers.antt =====
-- No handler behind Authenticate meets a nil user.
use go_agent_api.Store.World.{World}
use go_agent_api.Limits.{Redis}
use go_agent_api.Http.Request.{Request}
use go_agent_api.Http.Response.{Body, aborted, json, error, stream_response}
use go_agent_api.Http.App.{App, Draws}
use go_agent_api.Http.Server.{Protected, serve_protected}
use go_agent_api.Http.Yields.Routes.{serve_protected-P}
use go_agent_api.Http.Yields.{Covered}

-- A body that no panic left.
IsAnswered : Body → Type 0
IsAnswered (aborted x) = ⊥
IsAnswered _ = Unit

answered : Covered λ e. λ r. IsAnswered r.body
unfolding json error stream_response IsAnswered
answered = record {
  refuses = λ e. λ status. λ code. λ message. tt;
  accepts = λ e. λ status. λ payload. λ g. tt;
  streams = λ frames. tt;
  rewrites = λ e. λ r. λ headers. λ h. h;
}

module _ {S : Type 0} (app : App) (redis : Redis S) (draws : Draws) where
  -- No request to an endpoint of the group that authenticates ends in a panic of its handler: the
  -- user that the handlers read is never nil there.
  serve_protected-IsAnswered :
      (endpoint : Protected) (request : Request) (w : World) (s : S)
      → IsAnswered (serve_protected app redis draws endpoint request (w, s)).0.body
  serve_protected-IsAnswered endpoint request w s =
      serve_protected-P (λ e. λ r. IsAnswered r.body) answered app draws redis endpoint request w s
