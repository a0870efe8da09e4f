-- ===== src/Lib.antt =====
-- go-agent-api: a service in Go that holds conversations between users and language-model agents.
-- A request is authenticated by a token; a message runs an agent's workflow, which calls the model
-- and tools and may pause for a human approval; conversations, messages, tokens and users are rows
-- of a PostgreSQL database.
--
-- The parts, and the files that model them:
--
-- Base: Go's values and errors. Base.Exec is a call that takes the state of the world and returns
--   a value or an error beside the state that is left, what an `if err != nil` makes of an error,
--   and the chaining of such calls; Base.Binds takes chains that returned apart and Base.Keeping
--   follows what chains keep; Base.Table is a map with text keys and Base.Words are Go's 64-bit
--   numbers.
-- Config: internal/infrastructure/config. AppErrors: internal/pkg/errors.
-- Entity: internal/domain/entity, a module per file, with internal/domain/valueobject
--   (ValueObjects) and internal/domain/event (Events). `new_user` is NewUser, `is_valid` of
--   Entity.Token is Token.IsValid, `request_approval` is Conversation.RequestApproval, and so on.
-- Tools: pkg/toolspec (Tools.Spec) and internal/application/usecase/tool (Tools.Registry, and
--   Tools.Execute for execute_tool.go; Tools.Steady is about tools that no earlier call changes).
-- Access: internal/domain/service, the rules that span users, tokens and conversations; the proofs
--   are Access.Rules, and Tools.Permission for the tools that a token can see and run.
-- Tools.Builtin: internal/application/usecase/tool/builtin, the calculator (Calculator, against the
--   stack machine of Postfix) and the search (WebSearch).
-- Limits: internal/infrastructure/http/middleware/ratelimit.go, the counters of a token's requests.
-- Workflow: internal/infrastructure/eino. State is agent_state.go; Nodes, Graph and Engine are
--   chatbot_graph.go: the nodes, the edges and branches of `build`, and Run and Resume. Clone is
--   AgentState.Clone, over arrays at addresses, since what it shares is seen only there. The
--   proofs are Walks (induction along walks), Acting (actNode), Safety, Calls, Counting, Progress
--   and Resuming.
-- Store: internal/infrastructure/persistence. World is the database with the calls made outside;
--   Users, Tokens, Conversations, Messages and ToolExecutions are the repositories of postgres,
--   Columns and TokenColumns the columns of messages and tokens as they are written and scanned,
--   Links their foreign keys, Cache is redis/cache.go with its port and Connection both files
--   connection.go. Reads, Rows and Writes say what searches return and what updates leave, Unique
--   follows the unique keys of users and tokens, and Refinement takes the conversations as a map.
-- Chat: internal/application/usecase/chat, over the ports of internal/application/port
--   (Chat.Ports). SendMessage, ApproveAction and Queries are the use cases; the proofs are Pausing,
--   LostState, Ownership, Storing (what a first message leaves) and Listing.
-- Auth: internal/pkg/jwt (Jwt), internal/application/usecase/auth (Login, Refresh, Validate) and
--   internal/application/usecase/user (CreateUser); the proofs are Sound, Reading, Granting,
--   Opening, Revoking and Registering.
-- Llm: internal/infrastructure/llm/litellm. Client is Chat and ChatStream, Stream is readSSE, and
--   Endings says what a stream holds when the handler has written it.
-- Worker: internal/infrastructure/worker. Pool is a step of one goroutine, with Submit, SubmitWait,
--   the worker's loop and Shutdown; Invariant follows every schedule, Shutdown the last moves.
-- Http: internal/infrastructure/http, internal/pkg/response, internal/application/dto/request and
--   cmd/api/main.go (Main, Lifecycle for the connections and the server, Routing for the
--   registrations, and Server for the routes with their middleware). Handlers, Completions,
--   Streaming and Tools are the handlers, Middleware and RequestId what stands around them. Json is
--   what encoding/json makes of the answers, by the tags of their types, Writer the calls that
--   write them, with the writer of logging.go, and Documented the types of swagger_types.go. The
--   proofs are Guarded (the group that authenticates), Session (a login and what follows), Yields
--   (what all answers share), Answers, Typed, Exposure, Logging, Throttling (the limiter over a
--   sequence of requests), EmptyCompletion and Batch (the goroutines of a batch).
-- Examples: a small instance of the program, at which the theorems are applied.
--
-- How the state is modelled. A use case is a function of the World: the tables, the database's
-- clock, the history of calls to the model and to tools, and `faults`, which says of each statement
-- to come whether the database refuses it; past the end of that list nothing is refused. An id or a
-- time that the code draws from uuid.New or time.Now is an argument, one instant for an execution.
-- An `int` is a word below 2 ^ 64 with its wrap-around written out where the code adds, a `float64`
-- is its bit pattern. The model and a tool return what a function of the history of all calls
-- before gives. A panic is an error value, also that of a tool in a batch, which would end
-- the process there; no tool of the repository panics. The limits of a token are natural numbers:
-- the code never hands out a negative one. A goroutine that touches a token's last use is named in
-- the result of the validation that starts it.
--
-- Code outside the repository is a parameter: encoding/json, net/http, strings.ToLower, go/parser,
-- the arithmetic of float64, the order in which a map is walked, ORDER BY of the database, Redis,
-- the JWT library, SHA-256, bcrypt, the drivers of the two databases, and the engine that runs a
-- compiled graph (`Runnable`), of which the proofs use that an invoke that succeeds has followed
-- the edges and branches that `build` adds. `bounded` runs the graph for so many nodes and is such
-- an engine. The agent starts with 10 rounds, of four nodes each at most, beside a router, a
-- thinking node and a response; the examples run the graph for up to 50 nodes.
--
-- A pool of workers and a batch of tools are sequences of steps, in any order. A step of the pool
-- is one move of one goroutine, of a `select` one of its cases; a goroutine of a batch is one step,
-- since what others see of it is the call of its tool. The events of a stream are a list; what the
-- handler leaves of it is never received. A request is answered by a value: a status, headers and a
-- body, or a panic, which Recoverer turns into an answer. The router has matched the path before.
--
-- A column keeps what is written to it: that PostgreSQL rounds a DECIMAL and cuts a time to
-- microseconds is left out. An http.ResponseWriter is an interface over the state of its
-- connection, with a Flush that it may lack. A JSON value is `Any`: encoding/json refuses a number
-- that is not finite, and then nothing is written.
--
-- Not modelled: the router's choice of a registration for a path, the text of a JSON value and of a
-- log entry, and the page of Swagger, since these are other libraries' input and output around the
-- code that decides; and generated documentation.
pub mod Base
pub mod Entity
pub mod Tools
pub mod Workflow
pub mod Store
pub mod Chat
pub mod Auth
pub mod Examples
pub mod Access
pub mod Limits
pub mod Worker
pub mod Llm
pub mod Http
pub mod Config
pub mod AppErrors
