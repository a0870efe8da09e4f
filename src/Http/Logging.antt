-- ===== src/Http/Logging.antt =====
-- What stands between the handlers and the connection: Logger wraps the writer of each request.
use go_agent_api.Base.{ℕ, Bool, List, [], ◌∷◌, ◌≡◌, refl, ap, ◌∙◌, Option, none, some, String}
use go_agent_api.Base.Table.{Map}
use go_agent_api.Entity.Any.{Any}
use go_agent_api.Store.World.{World}
use go_agent_api.Limits.{Redis}
use go_agent_api.Http.Request.{Request}
use go_agent_api.Http.Response.{
  Response, Body, success, failure, stream, no_body, aborted, json, error, stream_response,
}
use go_agent_api.Http.Streaming.{Frame, error_frame, event_frame, closing}
use go_agent_api.Http.App.{App, Draws}
use go_agent_api.Http.Server.{Endpoint, serve}
use go_agent_api.Http.Json.{Encoder}
use go_agent_api.Http.Writer.{
  Writer, logged, without_flush, set_headers, write_frame, write_frames, sse_data, sse_event,
  write_json, write_body, write_response, log_response,
}
use go_agent_api.Http.Yields.Routes.{serve-P}
use go_agent_api.Http.Yields.{Covered}

-- the status that WriteHeader is called with, 200 where it is not called
abbrev written : ℕ → Body → ℕ
written status (stream frames) = 200
written status (aborted x) = 200
written status _ = status

writes_status : Covered λ e. λ r. written r.status r.body ≡ r.status
unfolding json error stream_response
writes_status = record {
  refuses = λ e. λ status. λ code. λ message. refl;
  accepts = λ e. λ status. λ payload. λ g. refl;
  streams = λ frames. refl;
  rewrites = λ e. λ r. λ headers. λ h. h;
}

module _ {S : Type 0} (w : Writer S) where
  set_headers-logged :
      (headers : Map String) (code : ℕ) (s : S)
      → set_headers (logged w) headers (code, s) ≡ (code, set_headers w headers s)
  unfolding logged
  set_headers-logged [] code s = refl
  set_headers-logged ((name, value) ∷ rest) code s =
      set_headers-logged rest code (w.set_header name value s)

  set_headers-without_flush :
      (headers : Map String) (s : S)
      → set_headers w headers s ≡ set_headers (without_flush w) headers s
  set_headers-without_flush [] s = refl
  set_headers-without_flush ((name, value) ∷ rest) s =
      set_headers-without_flush rest (w.set_header name value s)

  module _ (enc : Encoder) (json_text : Any → String) where
    write_frame-logged :
        (frame : Frame) (code : ℕ) (s : S)
        → write_frame enc json_text (logged w) frame (code, s)
          ≡ (code, write_frame enc json_text (without_flush w) frame s)
    unfolding logged write_frame sse_data sse_event
    write_frame-logged (error_frame t) code s = refl
    write_frame-logged (event_frame event) code s = refl
    write_frame-logged closing code s = refl

    write_frames-logged :
        (frames : List Frame) (code : ℕ) (s : S)
        → write_frames enc json_text (logged w) frames (code, s)
          ≡ (code, write_frames enc json_text (without_flush w) frames s)
    write_frames-logged [] code s = refl
    write_frames-logged (frame ∷ rest) code s =
        rw (write_frame-logged frame code s) (write_frames-logged rest code _)

    write_json-logged :
        (v : Option Any) (code : ℕ) (s : S)
        → write_json enc json_text (logged w) v (code, s)
          ≡ (code, write_json enc json_text (without_flush w) v s)
    unfolding logged
    write_json-logged none code s = refl
    write_json-logged (some v) code s = refl

    write_body-logged :
        (status : ℕ) (body : Body) (s : S)
        → write_body enc json_text (logged w) status body (200, s)
          ≡ (written status body, write_body enc json_text (without_flush w) status body s)
    unfolding logged
    write_body-logged status (success p) s = write_json-logged _ status _
    write_body-logged status (failure code message) s = write_json-logged _ status _
    write_body-logged status (stream frames) s = write_frames-logged frames 200 s
    write_body-logged status no_body s = refl
    write_body-logged status (aborted x) s = refl

    log_response_lem :
        (r : Response) (s : S)
        → log_response enc json_text w r s
          ≡ (written r.status r.body, write_response enc json_text (without_flush w) r s)
    unfolding log_response write_response
    log_response_lem r s =
        rw (set_headers-logged r.headers 200 s, set_headers-without_flush r.headers s)
          (write_body-logged r.status r.body _)

module _ {S T : Type 0} (enc : Encoder) (json_text : Any → String) (w : Writer T) where
  -- Behind Logger, the answer to a request is logged with the status that it has, and the connection
  -- sees of it what it would see if it were no http.Flusher: no event of a stream is flushed.
  pub log_response-serve :
      (app : App) (redis : Redis S) (draws : Draws) (db up : Bool) (endpoint : Endpoint)
      (request : Request) (s : World × S) (conn : T)
      → log_response enc json_text w (serve app redis draws db up endpoint request s).0 conn ≡ (
        (serve app redis draws db up endpoint request s).0.status,
        write_response enc json_text
            (without_flush w)
            (serve app redis draws db up endpoint request s).0
            conn,
      )
  log_response-serve app redis draws db up endpoint request s conn =
      let r = (serve app redis draws db up endpoint request s).0 in
      log_response_lem w enc json_text r conn
      ∙ ap (λ code. (code, write_response enc json_text (without_flush w) r conn))
          (serve-P (λ e. λ r. written r.status r.body ≡ r.status) writes_status app draws redis db
            up endpoint request s refl)
