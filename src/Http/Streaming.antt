-- ===== src/Http/Streaming.antt =====
-- chat_handler.go: the loop of handleStreamingChat, which writes the events that it receives.
use go_agent_api.Base.{String, Bool, true, false, Option, none, some, List, [], ◌∷◌, ◌++◌}
use go_agent_api.Base.Exec.{Error, error_text}
use go_agent_api.Llm.Stream.{StreamEvent}

-- SSEData of an error, SSEData of an event, and SSEEvent of the closing data
pub data Frame : Type 0 where
  error_frame : String → Frame
  event_frame : StreamEvent → Frame
  closing : Frame

abbrev pub forward_event : Option Error → Bool → StreamEvent → List Frame → List Frame
forward_event (some x) done event rest = error_frame (error_text x) ∷ []
forward_event none true event rest = event_frame event ∷ []
forward_event none false event rest = event_frame event ∷ rest

-- the frames of the loop
unfoldable pub forward : List StreamEvent → List Frame
forward [] = []
forward (event ∷ rest) = forward_event event.error event.done event (forward rest)

abbrev pub stop_at : Option Error → Bool → List StreamEvent → List StreamEvent → List StreamEvent
stop_at (some x) done rest later = rest
stop_at none true rest later = rest
stop_at none false rest later = later

-- the events that are left when the loop breaks: no one receives them
unfoldable pub unreceived : List StreamEvent → List StreamEvent
unreceived [] = []
unreceived (event ∷ rest) = stop_at event.error event.done rest (unreceived rest)

-- what follows the start of the stream
unfoldable pub stream_frames : List StreamEvent → List Frame
unfolding forward
stream_frames events = forward events ++ closing ∷ []
