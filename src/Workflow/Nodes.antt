-- ===== src/Workflow/Nodes.antt =====
-- internal/infrastructure/eino/graphs/chatbot_graph.go: the nodes. A node takes the state and
-- returns it changed; those that call the model or a tool also extend the history of such calls.
use Prim.Native.String.{◌++◌ as ◌+++◌}
use go_agent_api.Base.{
  ℕ, String, Bool, true, false, not, ◌&&◌, Option, none, some, List, [], ◌∷◌, ◌++◌, str_eq,
  if◌then◌else◌,
}
use package.text.Mathlib.Text.{find?}
use mathlib.Core.List.{reverse}
use go_agent_api.Base.Exec.{Result, Exec, ok, err, panicked, error_text}
use go_agent_api.Base.Words.{add64, leb64}
use go_agent_api.Base.Table.{Map, lookup}
use go_agent_api.Entity.Any.{Any, Object, Fields, null, text, object, field, end}
use go_agent_api.Entity.Message.{ToolCall, ChatMessage, tool_call_value}
use go_agent_api.Tools.Registry.{ChatRequest, History, chatted, executed, Tool, get, list}
use go_agent_api.Workflow.State.{
  AgentState, plain_message, add_assistant_message, add_tool_result, flush_tool_results,
}
use go_agent_api.Workflow.Env.{Env, Choice, ChatResponse}

abbrev pub system_prompts : Map String
system_prompts =
    (
      "general",
      "You are a helpful AI assistant. Be concise, accurate, and helpful.\nWhen you need current information, use the web_search tool.\nWhen asked to calculate something, use the calculator tool.",
    )
    ∷ (
      "coder",
      "You are an expert programmer. Write clean, efficient, well-documented code.\nAlways explain your code and consider edge cases.\nUse appropriate tools to validate or test code when available.",
    )
    ∷ (
      "researcher",
      "You are a research assistant. Search for accurate, up-to-date information.\nAlways cite your sources and verify claims using the web_search tool.\nPresent balanced perspectives on controversial topics.",
    )
    ∷ []

abbrev pub model_config : Map String
model_config = ("general", "gpt-4o-mini") ∷ ("coder", "gpt-4o") ∷ ("researcher", "gpt-4o-mini") ∷ []

abbrev pub code_keywords : List String
code_keywords =
    "code" ∷ "function" ∷ "program" ∷ "debug" ∷ "fix" ∷ "implement" ∷ "class" ∷ "api" ∷ []

abbrev pub research_keywords : List String
research_keywords =
    "search" ∷ "find" ∷ "research" ∷ "what is" ∷ "who is" ∷ "latest" ∷ "news" ∷ "current" ∷ []

-- strings.Contains
abbrev contains : String → String → Bool
contains s substr = elim (find? s substr) [ none ↦ false | some _ ↦ true ]

-- containsIgnoreCase
contains_ignore_case : (String → String) → String → String → Bool
contains_ignore_case to_lower s substr = contains (to_lower s) (to_lower substr)

-- A loop over keywords that breaks at the first one found.
has_keyword : (String → String) → String → List String → Bool
unfolding contains_ignore_case
has_keyword to_lower input [] = false
has_keyword to_lower input (kw ∷ rest) =
    if contains_ignore_case to_lower input kw then true else has_keyword to_lower input rest

-- The agent that the two keyword loops choose: the second overrides the first.
choose_agent : (String → String) → String → String
unfolding has_keyword
choose_agent to_lower input =
    if has_keyword to_lower input research_keywords
    then "researcher"
    else if has_keyword to_lower input code_keywords
    then "coder"
    else "general"

abbrev pub or_else : Option String → String → String
or_else none old = old
or_else (some new) old = new

unfoldable pub router_node : Env → AgentState → AgentState
unfolding choose_agent
router_node e s =
    let agent = choose_agent e.to_lower s.user_input in
    record s {
      current_agent = agent;
      agent_history = s.agent_history ++ agent ∷ [];
      model = if str_eq s.model "" then or_else (lookup agent model_config) s.model else s.model;
      system_prompt = or_else (lookup agent system_prompts) s.system_prompt;
    }

abbrev pub last_content : List ChatMessage → Option String
last_content [] = none
last_content (m ∷ []) = some m.content
last_content (m ∷ n ∷ rest) = last_content (n ∷ rest)

-- len(s.Messages) == 0 || s.Messages[len(s.Messages)-1].Content != s.UserInput
abbrev pub input_missing : String → Option String → Bool
input_missing input none = true
input_missing input (some content) = not (str_eq content input)

abbrev pub message_if : Bool → ChatMessage → List ChatMessage
message_if b m = if b then m ∷ [] else []

unfoldable pub build_messages : AgentState → List ChatMessage
build_messages s =
    message_if (not (str_eq s.system_prompt "")) (plain_message "system" s.system_prompt)
    ++ (s.messages
        ++ message_if
            (not (str_eq s.user_input "") && input_missing s.user_input (last_content s.messages))
            (plain_message "user" s.user_input))

abbrev pub think_request : Env → AgentState → History → ChatRequest
think_request e s h = record {
  model = s.model;
  messages = build_messages s;
  tools = list (e.walked h e.registry);
  tool_choice = null;
  temperature = s.temperature;
  max_tokens = s.max_tokens;
  stream = false;
  user = "";
}

-- What `thinkNode` does with the first choice.
unfoldable pub take_choice : Env → History → ℕ → Choice → AgentState → AgentState
take_choice e h tokens choice s =
    add_assistant_message choice.message.content choice.message.tool_calls (record s {
      available_tools = list (e.walked h e.registry);
      tokens_used = add64 s.tokens_used tokens;
      current_output = choice.message.content;
      pending_tools = choice.message.tool_calls;
    })

-- `resp.Choices[0]` panics where there is no choice.
abbrev pub think_choice : Env → History → ℕ → List Choice → AgentState → Result AgentState
think_choice e h tokens [] s = err (panicked "index out of range [0] with length 0")
think_choice e h tokens (choice ∷ rest) s = ok (take_choice e h tokens choice s)

abbrev pub think_response : Env → History → Result ChatResponse → AgentState → Result AgentState
think_response e h (err x) s = err x
think_response e h (ok resp) s = think_choice e h resp.usage.total_tokens resp.choices s

unfoldable pub think_node : Env → AgentState → Exec History AgentState
think_node e s h =
    let req = think_request e s h in (think_response e h (e.chat h req) s, chatted req ∷ h)

-- `map[string]string{"error": text}` as `any`
abbrev pub error_value : String → Any
error_value t = object (field "error" (text t) end)

fields_of : Object → Fields
fields_of [] = end
fields_of ((k, v) ∷ rest) = field k v (fields_of rest)

abbrev add_error : Env → ToolCall → String → AgentState → AgentState
add_error e tc t s = add_tool_result e.marshal tc.id tc.function.name (error_value t) s

unfoldable pub pause : ToolCall → Object → AgentState → AgentState
unfolding fields_of
pause tc args s = record s {
  requires_approval = true;
  approval_reason = "Tool '" +++ tc.function.name +++ "' requires approval";
  approval_data =
      ("tool", text tc.function.name)
      ∷ ("arguments", object (fields_of args))
      ∷ ("tool_call", tool_call_value tc)
      ∷ [];
}

abbrev result_value : Result Any → Any
result_value (ok v) = v
result_value (err x) = error_value (error_text x)

unfoldable pub run_tool : Env → ToolCall → Tool → Object → AgentState → History → AgentState
run_tool e tc t args s h =
    let s' = add_tool_result e.marshal tc.id tc.function.name (result_value (t.execute h args)) s in
    record s' { tool_calls_count = add64 s'.tool_calls_count 1 }

-- One round of the loop of `actNode` either returns from the node or goes on.
pub data Round : Type 0 where
  returned : AgentState → Round
  continued : AgentState → History → Round

-- the test of `t.RequiresApproval()`
abbrev pub act_found : Env → ToolCall → Object → Tool → Bool → AgentState → History → Round
act_found e tc args t true s h = returned (pause tc args s)
act_found e tc args t false s h =
    continued (run_tool e tc t args s h) (executed tc.function.name args ∷ h)

abbrev pub act_tool : Env → ToolCall → Object → Option Tool → AgentState → History → Round
act_tool e tc args none s h =
    continued (add_error e tc ("tool not found: " +++ tc.function.name) s) h
act_tool e tc args (some t) s h = act_found e tc args t t.requires_approval s h

abbrev pub act_args : Env → ToolCall → Result Object → AgentState → History → Round
act_args e tc (err x) s h =
    continued (add_error e tc ("failed to parse arguments: " +++ error_text x) s) h
act_args e tc (ok args) s h = act_tool e tc args (get e.registry tc.function.name) s h

unfoldable pub act_round : Env → ToolCall → AgentState → History → Round
act_round e tc s h = act_args e tc (e.unmarshal tc.function.arguments) s h

abbrev pub after_round :
    (AgentState → History → AgentState × History) → History → Round → AgentState × History
after_round go h (returned s) = (s, h)
after_round go h (continued s k) = go s k

unfoldable pub act_loop : Env → List ToolCall → AgentState → History → AgentState × History
act_loop e [] s h = (record s { pending_tools = [] }, h)
act_loop e (tc ∷ rest) s h = after_round (act_loop e rest) h (act_round e tc s h)

unfoldable pub act_node : Env → AgentState → History → AgentState × History
act_node e s h = act_loop e s.pending_tools (record s { tool_results = [] }) h

unfoldable pub observe_node : AgentState → AgentState
observe_node s =
    let s' = flush_tool_results s in
    let n = add64 s'.iteration 1 in
    record s' {
      iteration = n;
      should_stop = if leb64 s'.max_iterations n then true else s'.should_stop;
    }

unfoldable pub human_approval_node : AgentState → AgentState
human_approval_node s = s

-- The loop of `responseNode`, over the messages from the last to the first.
abbrev is_reply : ChatMessage → Bool
is_reply m = str_eq m.role "assistant" && not (str_eq m.content "")

unfoldable pub last_reply : List ChatMessage → String → String
last_reply [] old = old
last_reply (m ∷ rest) old = if is_reply m then m.content else last_reply rest old

unfoldable pub response_node : AgentState → AgentState
unfolding last_reply
response_node s = record s {
  current_output =
      if str_eq s.current_output ""
      then last_reply (reverse s.messages) s.current_output
      else s.current_output;
  should_stop = true;
}
