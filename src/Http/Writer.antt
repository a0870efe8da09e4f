-- ===== src/Http/Writer.antt =====
-- How an answer is written: internal/pkg/response/response.go over an http.ResponseWriter, and
-- internal/infrastructure/http/middleware/logging.go, which wraps it.
use go_agent_api.Base.{ℕ, String, Option, none, some, List, [], ◌∷◌, str_eq, if◌then◌else◌}
use Prim.Native.String.{◌++◌ as ◌+++◌}
use go_agent_api.Base.Table.{Map}
use go_agent_api.Entity.Any.{Any, text}
use go_agent_api.Http.Response.{Response, Body, success, failure, stream, no_body, aborted}
use go_agent_api.Http.Streaming.{Frame, error_frame, event_frame, closing}
use go_agent_api.Http.Json.{Encoder, encodable, struct}
use go_agent_api.Http.Json.Payloads.{body_json, encode_event}

-- http.ResponseWriter: Header().Set, WriteHeader and Write; and Flush, where the value is an
-- http.Flusher too.
pub record Writer (S : Type 0) : Type 0 where
  pub set_header : String → String → S → S
  pub write_header : ℕ → S → S
  pub write : String → S → S
  pub flush : Option (S → S)

module _ {S : Type 0} where
  -- `if f, ok := w.(http.Flusher); ok`
  abbrev flush_if : Option (S → S) → S → S
  flush_if none s = s
  flush_if (some f) s = f s

  abbrev pub set_headers : Writer S → Map String → S → S
  set_headers w [] s = s
  set_headers w ((name, value) ∷ rest) s = set_headers w rest (w.set_header name value s)

  -- SSEEvent
  unfoldable pub sse_event : Writer S → String → String → S → S
  sse_event w event payload s =
      let named = (if str_eq event "" then s else w.write ("event: " +++ event +++ "\n") s) in
      flush_if w.flush (w.write ("data: " +++ payload +++ "\n\n") named)

  -- the same writer, seen as no http.Flusher
  abbrev pub without_flush : Writer S → Writer S
  without_flush w = record w { flush = none }

  -- responseWriter: the embedded http.ResponseWriter has no Flush to promote
  unfoldable pub logged : Writer S → Writer (ℕ × S)
  logged w = record {
    set_header = λ name value (code, s). (code, w.set_header name value s);
    write_header = λ code (old, s). (code, w.write_header code s);
    write = λ t (code, s). (code, w.write t s);
    flush = none;
  }

-- `enc` and `json_text` are encoding/json; a value that it refuses is marshalled to no bytes.
module _ (enc : Encoder) (json_text : Any → String) where
  abbrev marshalled : Any → String
  marshalled v = if encodable enc v then json_text v else ""

  module _ {S : Type 0} where
    -- SSEData
    unfoldable pub sse_data : Writer S → Any → S → S
    unfolding encodable
    sse_data w v s = flush_if w.flush (w.write ("data: " +++ marshalled v +++ "\n\n") s)

    unfoldable pub write_frame : Writer S → Frame → S → S
    unfolding sse_data sse_event encode_event
    write_frame w (error_frame t) s = sse_data w (struct (("error", text t) ∷ [])) s
    write_frame w (event_frame event) s = sse_data w (encode_event enc event) s
    write_frame w closing s = sse_event w "" "[DONE]" s

    abbrev pub write_frames : Writer S → List Frame → S → S
    write_frames w [] s = s
    write_frames w (frame ∷ rest) s = write_frames w rest (write_frame w frame s)

    -- json.NewEncoder(w).Encode
    abbrev pub write_json : Writer S → Option Any → S → S
    write_json w none s = s
    write_json w (some v) s = w.write (json_text v +++ "\n") s

    abbrev pub write_body : Writer S → ℕ → Body → S → S
    write_body w status (success p) s =
        write_json w (body_json enc (success p)) (w.write_header status s)
    write_body w status (failure code message) s =
        write_json w (body_json enc (failure code message)) (w.write_header status s)
    write_body w status (stream frames) s = write_frames w frames s
    write_body w status no_body s = w.write_header status s
    write_body w status (aborted x) s = s

    -- What the calls of a handler on its writer make of an answer: JSON, Error, Stream and the
    -- events.
    unfoldable pub write_response : Writer S → Response → S → S
    unfolding write_frame body_json
    write_response w r s = write_body w r.status r.body (set_headers w r.headers s)

  module _ {S : Type 0} where
    -- Logger: the status that it logs, and what the connection has seen
    unfoldable pub log_response : Writer S → Response → S → ℕ × S
    unfolding write_response logged
    log_response w r s = write_response (logged w) r (200, s)
