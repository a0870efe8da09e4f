-- ===== src/Llm/Endings.antt =====
-- Streams of client.go, from the lines of a response to what chat_handler.go writes.
use go_agent_api.Base.{
  String, Bool, true, false, Option, none, some, List, [], ◌∷◌, ◌++◌, map, str_eq, All, All-append,
  ◌≡◌, refl, ap, sym, ◌∙◌, if◌then◌else◌,
}
use mathlib.Core.List.{append_assoc}
use go_agent_api.Base.Exec.{Error, error_text}
use go_agent_api.Entity.Message.{ToolCall}
use go_agent_api.Workflow.Env.{UsageInfo}
use go_agent_api.Llm.Stream.{
  StreamEvent, done_event, error_event, ChunkChoice, Chunk, chunk_events, Read, cancelled, line,
  failed, ended, Line, skipped, finished, payload, line_of, content_event, tool_event, finish_event,
  decoded_events, read_line, read_sse,
}
use go_agent_api.Http.Streaming.{
  Frame, error_frame, event_frame, closing, forward, forward_event, stop_at, unreceived,
  stream_frames,
}

-- How the reading of a body comes to its end.
pub data Stop : Type 0 where
  at_end : Stop
  at_cancel : Error → Stop
  at_failure : Error → Stop

-- An event that neither ends the stream nor reports an error.
abbrev pub IsPlain : StreamEvent → Type 0
IsPlain e = (e.error ≡ none) × (e.done ≡ false)

module _ (trim_space : String → String) (decode : String → Option Chunk) where
  abbrev stop_after : Line → Stop → Stop
  stop_after finished later = at_end
  stop_after skipped later = later
  stop_after (payload t) later = later

  abbrev events_after : Line → List StreamEvent → List StreamEvent
  events_after finished later = []
  events_after skipped later = later
  events_after (payload t) later = decoded_events (decode t) ++ later

  -- What ends the reading: the first line that says so, or what is no line.
  unfoldable pub stop_of : List Read → Stop
  stop_of [] = at_end
  stop_of (ended ∷ reads) = at_end
  stop_of (cancelled x ∷ reads) = at_cancel x
  stop_of (failed x ∷ reads) = at_failure x
  stop_of (line l ∷ reads) = stop_after (line_of trim_space l) (stop_of reads)

  -- The events of the payloads before that end, in order.
  unfoldable pub payload_events : List Read → List StreamEvent
  payload_events (line l ∷ reads) = events_after (line_of trim_space l) (payload_events reads)
  payload_events _ = []

-- The frame that reports an end, before the closing one.
abbrev pub last_frame : Stop → Frame
last_frame at_end = event_frame done_event
last_frame (at_cancel x) = error_frame (error_text x)
last_frame (at_failure x) = error_frame (error_text x)

-- What the reader has still to send when the handler's loop has ended.
abbrev pub left_over : Stop → List StreamEvent
left_over (at_failure x) = done_event ∷ []
left_over _ = []

abbrev pub sent_at : Stop → List StreamEvent
sent_at at_end = done_event ∷ []
sent_at (at_cancel x) = error_event x ∷ []
sent_at (at_failure x) = error_event x ∷ done_event ∷ []

tool_events-IsPlain :
    (calls : List ToolCall) (rest : List StreamEvent)
    → All IsPlain rest
    → All IsPlain (map tool_event calls ++ rest)
tool_events-IsPlain [] rest h = h
tool_events-IsPlain (tc ∷ calls) rest h = ((refl, refl), tool_events-IsPlain calls rest h)

content-IsPlain :
    (b : Bool) (e : StreamEvent) (rest : List StreamEvent)
    → IsPlain e
    → All IsPlain rest
    → All IsPlain ((if b then [] else e ∷ []) ++ rest)
content-IsPlain true e rest p h = h
content-IsPlain false e rest p h = (p, h)

last-IsPlain : (b : Bool) (e : StreamEvent) → IsPlain e → All IsPlain (if b then [] else e ∷ [])
last-IsPlain true e p = tt
last-IsPlain false e p = (p, tt)

chunk_events-IsPlain :
    (choices : List ChunkChoice) (usage : Option UsageInfo)
    → All IsPlain (chunk_events choices usage)
chunk_events-IsPlain [] usage = tt
chunk_events-IsPlain (choice ∷ rest) usage =
    content-IsPlain (str_eq choice.content "") (content_event choice.content) _ (refl, refl)
      (tool_events-IsPlain choice.tool_calls _ (
        last-IsPlain (str_eq choice.finish_reason "") (finish_event choice.finish_reason usage)
          (refl, refl)))

decoded_events-IsPlain : (o : Option Chunk) → All IsPlain (decoded_events o)
decoded_events-IsPlain none = tt
decoded_events-IsPlain (some chunk) = chunk_events-IsPlain chunk.choices chunk.usage

module _ (trim_space : String → String) (decode : String → Option Chunk) where
  line-IsPlain :
      (l : Line) (later : List StreamEvent)
      → All IsPlain later
      → All IsPlain (events_after trim_space decode l later)
  line-IsPlain skipped later h = h
  line-IsPlain finished later h = tt
  line-IsPlain (payload t) later h =
      All-append IsPlain (decoded_events (decode t)) later (decoded_events-IsPlain (decode t)) h

  payload_events-IsPlain :
      (reads : List Read) → All IsPlain (payload_events trim_space decode reads)
  unfolding payload_events
  payload_events-IsPlain [] = tt
  payload_events-IsPlain (ended ∷ reads) = tt
  payload_events-IsPlain (cancelled x ∷ reads) = tt
  payload_events-IsPlain (failed x ∷ reads) = tt
  payload_events-IsPlain (line l ∷ reads) =
      line-IsPlain (line_of trim_space l) _ (payload_events-IsPlain reads)

  line_split :
      (l : Line) (later : List StreamEvent) (s : Stop) (sent : List StreamEvent)
      → sent ≡ later ++ sent_at s
      → read_line trim_space decode l sent
        ≡ events_after trim_space decode l later ++ sent_at (stop_after trim_space decode l s)
  line_split skipped later s sent p = p
  line_split finished later s sent p = refl
  line_split (payload t) later s sent p =
      ap (λ r. decoded_events (decode t) ++ r) p
      ∙ sym (append_assoc (decoded_events (decode t)) later (sent_at s))

  -- The reader sends the events of the payloads, and then those of its end.
  read_sse-split :
      (reads : List Read)
      → read_sse trim_space decode reads
        ≡ payload_events trim_space decode reads ++ sent_at (stop_of trim_space decode reads)
  unfolding read_sse payload_events stop_of
  read_sse-split [] = refl
  read_sse-split (ended ∷ reads) = refl
  read_sse-split (cancelled x ∷ reads) = refl
  read_sse-split (failed x ∷ reads) = refl
  read_sse-split (line l ∷ reads) = line_split (line_of trim_space l) _ _ _ (read_sse-split reads)

forward-plain :
    (events : List StreamEvent) (s : Stop)
    → All IsPlain events
    → forward (events ++ sent_at s) ≡ map event_frame events ++ last_frame s ∷ []
unfolding forward
forward-plain [] at_end h = refl
forward-plain [] (at_cancel x) h = refl
forward-plain [] (at_failure x) h = refl
forward-plain (e ∷ events) s ((p, q), h) =
    ap (λ o. forward_event o e.done e (forward (events ++ sent_at s))) p
    ∙ (ap (λ b. forward_event none b e (forward (events ++ sent_at s))) q
        ∙ ap (λ l. event_frame e ∷ l) (forward-plain events s h))

unreceived-plain :
    (events : List StreamEvent) (s : Stop)
    → All IsPlain events
    → unreceived (events ++ sent_at s) ≡ left_over s
unfolding unreceived
unreceived-plain [] at_end h = refl
unreceived-plain [] (at_cancel x) h = refl
unreceived-plain [] (at_failure x) h = refl
unreceived-plain (e ∷ events) s ((p, q), h) =
    ap (λ o. stop_at o e.done (events ++ sent_at s) (unreceived (events ++ sent_at s))) p
    ∙ (ap (λ b. stop_at none b (events ++ sent_at s) (unreceived (events ++ sent_at s))) q
        ∙ unreceived-plain events s h)

-- The stream that the handler writes is the events of the payloads before the reading's end, in
-- their order, one frame for that end, and the closing frame; when the handler's loop has ended,
-- every event was received, but after a failure of the body the reader still has the final event to
-- send, which no one receives.
pub stream_frames-read_sse :
    (trim_space : String → String) (decode : String → Option Chunk) (reads : List Read)
    → (stream_frames (read_sse trim_space decode reads)
        ≡ map event_frame (payload_events trim_space decode reads)
          ++ (last_frame (stop_of trim_space decode reads) ∷ closing ∷ []))
      × (unreceived (read_sse trim_space decode reads)
          ≡ left_over (stop_of trim_space decode reads))
unfolding stream_frames
stream_frames-read_sse trim_space decode reads =
    let split = read_sse-split trim_space decode reads in
    let plain = payload_events-IsPlain trim_space decode reads in
    let events = payload_events trim_space decode reads in
    let s = stop_of trim_space decode reads in
    (
      ap (λ l. forward l ++ closing ∷ []) split
          ∙ (ap (λ l. l ++ closing ∷ []) (forward-plain events s plain)
              ∙ append_assoc (map event_frame events) (last_frame s ∷ []) (closing ∷ [])),
      ap unreceived split ∙ unreceived-plain events s plain,
    )
