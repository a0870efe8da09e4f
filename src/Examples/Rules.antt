-- ===== src/Examples/Rules.antt =====
-- The theorems of the tools and of the domain services at the small instance.
use go_agent_api.Base.{ℕ, String, true, none, some, List, [], ◌∷◌, map, select, ◌≡◌, ◌≢◌, ◌↔◌, ◌⊎◌}
use go_agent_api.Base.Exec.{ok}
use go_agent_api.Entity.Token.{is_valid, can_use_tool, can_use_model}
use go_agent_api.Entity.Conversation.{Conversation, new_conversation}
use go_agent_api.Tools.Registry.{entry_definition, entry_name, list_for_token}
use go_agent_api.Tools.Execute.{ExecuteToolInput, execute_tool}
use go_agent_api.Tools.Permission.{list_for_token-can_use_tool, Granted, execute_tool-Granted}
use go_agent_api.Access.{validate_token_access}
use go_agent_api.Access.Rules.{validate_token_access_iff}
use go_agent_api.Examples.Fixtures.{registry, session, alice, call_of}

list_for_token-can_use_tool_example :
    list_for_token session.allowed_tools registry
    ≡ map entry_definition (select (λ x. can_use_tool session (entry_name x)) registry)
list_for_token-can_use_tool_example = list_for_token-can_use_tool session registry

abbrev request : ExecuteToolInput
request = record { tool_call = call_of "c1" "calculator"; user = some alice; token = some session }

execute_tool-Granted_example :
    ((execute_tool registry (λ t. ok []) 4 request []).1 ≡ [])
    ⊎ Granted registry (λ t. ok []) request [] (execute_tool registry (λ t. ok []) 4 request []).1
execute_tool-Granted_example = execute_tool-Granted registry (λ t. ok []) 4 request []

abbrev tool_name : String
tool_name = "calculator"

abbrev no_model : String
no_model = ""

abbrev content : List ℕ
content = 72 ∷ 105 ∷ []

validate_token_access_iff_example :
    (validate_token_access 5 alice session "calculator" "" ≡ none) ↔ (
      (alice.is_active ≡ true)
      × (is_valid 5 session ≡ true)
      × (session.user_id ≡ alice.id)
      × (tool_name ≢ "" → can_use_tool session "calculator" ≡ true)
      × (no_model ≢ "" → can_use_model session "" ≡ true))
validate_token_access_iff_example = validate_token_access_iff 5 alice session "calculator" ""

abbrev conversation : Conversation
conversation = new_conversation 5 0 1 "general"
