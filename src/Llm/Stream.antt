-- ===== src/Llm/Stream.antt =====
-- readSSE: the events that are sent while the body of a response is read. What a round of its loop
-- meets is a `Read`; the reading of lines, strings.TrimSpace and encoding/json are parameters.
use go_agent_api.Base.{
  String, Bool, true, false, Option, none, some, List, [], ◌∷◌, ◌++◌, map, str_eq, if◌then◌else◌,
}
use package.text.Mathlib.Text.{starts_with}
use go_agent_api.Base.Texts.{trim_prefix}
use go_agent_api.Base.Exec.{Error}
use go_agent_api.Entity.Message.{ToolCall}
use go_agent_api.Workflow.Env.{UsageInfo}

-- port.StreamEvent; a nil pointer or error is none
pub record StreamEvent : Type 0 where
  pub kind : String
  pub delta : String
  pub tool_call : Option ToolCall
  pub usage : Option UsageInfo
  pub error : Option Error
  pub done : Bool

abbrev blank : StreamEvent
blank = record { kind = ""; delta = ""; tool_call = none; usage = none; error = none; done = false }

abbrev pub done_event : StreamEvent
done_event = record blank { done = true }

abbrev pub error_event : Error → StreamEvent
error_event x = record blank { error = some x }

-- `chunk`, one of its choices and its usage
pub record ChunkChoice : Type 0 where
  pub content : String
  pub tool_calls : List ToolCall
  pub finish_reason : String

pub record Chunk : Type 0 where
  pub choices : List ChunkChoice
  pub usage : Option UsageInfo

abbrev pub content_event : String → StreamEvent
content_event content = record blank { kind = "content"; delta = content }

abbrev pub tool_event : ToolCall → StreamEvent
tool_event tc = record blank { kind = "tool_call"; tool_call = some tc }

abbrev pub finish_event : String → Option UsageInfo → StreamEvent
finish_event reason usage = record blank { kind = "finish"; delta = reason; usage = usage }

-- `if len(chunk.Choices) > 0`
abbrev pub chunk_events : List ChunkChoice → Option UsageInfo → List StreamEvent
chunk_events [] usage = []
chunk_events (choice ∷ rest) usage =
    (if str_eq choice.content "" then [] else content_event choice.content ∷ [])
    ++ (map tool_event choice.tool_calls
        ++ (if str_eq choice.finish_reason ""
            then []
            else finish_event choice.finish_reason usage ∷ []))

-- What a round of the loop meets: a context that is done, a line up to its newline, or an error of
-- the reader, with which a last line without a newline is dropped.
pub data Read : Type 0 where
  cancelled : Error → Read
  line : String → Read
  failed : Error → Read
  ended : Read

-- What a line is, by the tests of the loop.
pub data Line : Type 0 where
  skipped : Line
  finished : Line
  payload : String → Line

module _ (trim_space : String → String) where
  abbrev pub line_of : String → Line
  line_of l =
      let t = trim_space l in
      if str_eq t ""
      then skipped
      else if starts_with t "data: "
      then (if str_eq (trim_prefix t "data: ") "[DONE]"
          then finished
          else payload (trim_prefix t "data: "))
      else skipped

-- the events of a payload; one that cannot be decoded has none
abbrev pub decoded_events : Option Chunk → List StreamEvent
decoded_events none = []
decoded_events (some chunk) = chunk_events chunk.choices chunk.usage

module _ (trim_space : String → String) (decode : String → Option Chunk) where
  abbrev pub read_line : Line → List StreamEvent → List StreamEvent
  read_line skipped rest = rest
  read_line finished rest = done_event ∷ []
  read_line (payload text) rest = decoded_events (decode text) ++ rest

  -- The list ends where the body does.
  unfoldable pub read_sse : List Read → List StreamEvent
  unfolding trim_prefix
  read_sse [] = done_event ∷ []
  read_sse (cancelled x ∷ reads) = error_event x ∷ []
  read_sse (failed x ∷ reads) = error_event x ∷ done_event ∷ []
  read_sse (ended ∷ reads) = done_event ∷ []
  read_sse (line l ∷ reads) = read_line (line_of trim_space l) (read_sse reads)
