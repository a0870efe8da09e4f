-- ===== src/Examples/Workflow.antt =====
-- The theorems of the workflow at the small instance.
use go_agent_api.Base.{
  true, false, none, some, List, [], ◌∷◌, ◌≡◌, refl, arith, ◌+◌, ◌^◌, ◌%◌, ◌≤◌, ◌⊎◌,
}
use go_agent_api.Base.Exec.{Result, ok, err, Error}
use go_agent_api.Base.Table.{lookup}
use go_agent_api.Entity.Message.{ToolCall}
use go_agent_api.Tools.Registry.{History, get, list}
use go_agent_api.Workflow.State.{
  AgentState, new_agent_state, add_assistant_message, add_tool_result, flush_tool_results,
}
use go_agent_api.Workflow.Nodes.{
  router_node, build_messages, take_choice, think_node, act_node, act_loop, act_round, run_tool,
  pause, observe_node, human_approval_node, response_node,
}
use go_agent_api.Workflow.Graph.{router, human_approval, response, next_node, run_node, walk, Walk}
use go_agent_api.Workflow.Engine.{
  WorkflowOutput, run, resume, start_state, output, approved, rejected,
}
use go_agent_api.Workflow.Walks.{walk-Follows}
use go_agent_api.Workflow.Acting.{reply_ids, fate, tool_runs, has_pause, onto}
use go_agent_api.Workflow.Safety.{AllAllowed, Walk-AllAllowed}
use go_agent_api.Workflow.Calls.{chats, tool_count, chats-Walk}
use go_agent_api.Workflow.Counting.{tool_calls_count-Walk, last_node, Walk-ends}
use go_agent_api.Workflow.Progress.{walk_terminates}
use go_agent_api.Workflow.Resuming.{
  resume-AllAllowed, run-AllAllowed, act_node-repeats, observe-act_answers,
}
use go_agent_api.Examples.Fixtures.{env, graph, input, safe_calls, guarded_calls, stored_state}

abbrev start : AgentState
start = stored_state []

abbrev state_of : Result AgentState → AgentState
state_of (ok s) = s
state_of (err x) = start

abbrev result_of : Result WorkflowOutput → WorkflowOutput
result_of (ok o) = o
result_of (err x) = rejected (env []) start

abbrev ended : List ToolCall → Result AgentState × History
ended calls = walk (env calls) 50 router start []

abbrev safe_end : AgentState
safe_end = state_of (ended safe_calls).0

abbrev safe_history : History
safe_history = (ended safe_calls).1

safe-Walk : Walk (env safe_calls) safe_end safe_history router start []
unfolding walk run_node router_node think_node build_messages list take_choice add_assistant_message
    act_node act_loop act_round get lookup run_tool pause add_tool_result observe_node
    flush_tool_results human_approval_node response_node next_node
safe-Walk = walk-Follows (env safe_calls) 50 router start [] safe_end safe_history refl

-- One tool runs, beside two calls of the model.
safe_walk_counts :
    (tool_count safe_history ≡ 1)
    × (chats safe_history ≡ 2)
    × (safe_end.current_output ≡ "It is 4.")
unfolding walk run_node router_node think_node build_messages list take_choice add_assistant_message
    act_node act_loop act_round get lookup run_tool pause add_tool_result observe_node
    flush_tool_results human_approval_node response_node next_node
safe_walk_counts = (refl, refl, refl)

Walk-AllAllowed_example : AllAllowed (env safe_calls) safe_history
Walk-AllAllowed_example =
    Walk-AllAllowed (env safe_calls) router start safe_end [] safe_history safe-Walk tt

chats-Walk_example : chats safe_history ≤ 10
chats-Walk_example =
    chats-Walk (env safe_calls) start safe_end [] safe_history safe-Walk (omega arith) (omega arith)

tool_calls_count-Walk_example :
    (safe_end.tool_calls_count + 0) % 2 ^ 64 ≡ (0 + tool_count safe_history) % 2 ^ 64
tool_calls_count-Walk_example =
    tool_calls_count-Walk (env safe_calls) router start safe_end [] safe_history safe-Walk

Walk-ends_example :
    ((last_node safe-Walk router ≡ response) × (r : AgentState) × (safe_end ≡ response_node r))
    ⊎ ((last_node safe-Walk router ≡ human_approval)
        × (safe_end.requires_approval ≡ true)
        × (safe_end.is_approved ≡ none))
Walk-ends_example = Walk-ends (env safe_calls) start safe_end [] safe_history safe-Walk

walk_terminates_example :
    ((t : AgentState) × (k : History) × (walk (env safe_calls) 43 router start [] ≡ (ok t, k)))
    ⊎ ((s' : AgentState) × (h' : History) × (x : Error) × ((think_node (env safe_calls) s' h').0
          ≡ err x)
        × ((walk (env safe_calls) 43 router start []).0 ≡ err x))
walk_terminates_example =
    walk_terminates (env safe_calls) 43 start [] (omega arith) (omega arith) (omega arith)

abbrev run_of : List ToolCall → Result WorkflowOutput × History
run_of calls = run (env calls) (some (graph calls)) "r" 3 input []

abbrev run_output : WorkflowOutput
run_output = result_of (run_of guarded_calls).0

run-AllAllowed_example :
    AllAllowed (env guarded_calls) (run_of guarded_calls).1
    × ((t : AgentState) × Walk
          (env guarded_calls)
          t
          (run_of guarded_calls).1
          router
          (start_state "r" 3 input)
          []
        × (t.requires_approval ≡ run_output.requires_approval)
        × (run_output.requires_approval ≡ true
            → (env guarded_calls).state_to_json t ≡ ok run_output.paused_state_json))
unfolding run walk start_state new_agent_state output run_node router_node think_node build_messages
    list take_choice add_assistant_message act_node act_loop act_round get lookup run_tool pause
    add_tool_result observe_node flush_tool_results human_approval_node response_node next_node
run-AllAllowed_example =
    run-AllAllowed (env guarded_calls) (graph guarded_calls) "r" 3 input [] (run_of guarded_calls).1
      run_output refl tt

abbrev resume_of : Result WorkflowOutput × History
resume_of = resume (env guarded_calls) (some (graph guarded_calls)) "json" true []

resume-AllAllowed_example : AllAllowed (env guarded_calls) resume_of.1
unfolding resume approved walk output run_node router_node think_node build_messages list
    take_choice add_assistant_message act_node act_loop act_round get lookup run_tool pause
    add_tool_result observe_node flush_tool_results human_approval_node response_node next_node
resume-AllAllowed_example =
    resume-AllAllowed (env guarded_calls) (graph guarded_calls) "json" true [] resume_of.1
      (result_of resume_of.0) refl tt

abbrev paused : AgentState
paused = (act_node (env guarded_calls) (stored_state guarded_calls) []).0

act_node-repeats_example :
    ((act_node (env guarded_calls) (stored_state guarded_calls) []).1
      ≡ onto (tool_runs (env guarded_calls) guarded_calls) [])
    × ((act_node (env guarded_calls) paused []).1
        ≡ onto (tool_runs (env guarded_calls) guarded_calls) [])
    × ((act_node (env guarded_calls) paused []).0.requires_approval ≡ true)
    × ((act_node (env guarded_calls) paused []).0.pending_tools ≡ guarded_calls)
unfolding has_pause fate get lookup
act_node-repeats_example =
    act_node-repeats (env guarded_calls) (stored_state guarded_calls) paused [] [] refl refl

abbrev acted : AgentState
acted = (act_node (env safe_calls) (stored_state safe_calls) []).0

observe-act_answers_example :
    (reply_ids (observe_node acted).messages ≡ "c1" ∷ "c2" ∷ [])
    × ((observe_node acted).pending_tools ≡ [])
    × ((observe_node acted).requires_approval ≡ false)
unfolding has_pause fate get lookup
observe-act_answers_example = observe-act_answers (env safe_calls) (stored_state safe_calls) [] refl
