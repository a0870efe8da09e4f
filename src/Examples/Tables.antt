-- ===== src/Examples/Tables.antt =====
-- The theorems of the repositories at the small instance.
use go_agent_api.Base.{[], ◌∷◌, ◌≡◌, refl, List, some, arith}
use go_agent_api.Base.Exec.{◌>>=◌}
use go_agent_api.Entity.Conversation.{new_conversation}
use go_agent_api.Entity.User.{new_user}
use go_agent_api.Store.World.{World}
use go_agent_api.Store.Rows.{found}
use go_agent_api.Store.Conversations
use go_agent_api.Store.Refinement.Spec.{Operation, create, update, perform_all, apply_all}
use go_agent_api.Store.Refinement.{search_result, perform_all-find_by_id}
use go_agent_api.Store.Unique.{
  Write, IsUnique, create_user, update_user, delete_expired, left_by_all, left_by_all-IsUnique,
}
use go_agent_api.Entity.Message.{Message, new_assistant_message}
use go_agent_api.Store.Messages.{row_of}
use go_agent_api.Store.Columns.{scan_message, inserted_message, scan_message-inserted_message}
use go_agent_api.Examples.Fixtures.{alice, world, call_of}
use go_agent_api.Examples.Chats.{conversation}

abbrev operations : List Operation
operations = create conversation ∷ update (record conversation { title = "t" }) ∷ []

abbrev performed : World
performed = (perform_all operations world).1

perform_all-find_by_id_example :
    Conversations.find_by_id 5 performed
    ≡ (search_result (apply_all 3 operations (λ i. found i world) 5), performed)
unfolding perform_all Conversations.create Conversations.update new_conversation ◌>>=◌
perform_all-find_by_id_example = perform_all-find_by_id operations world performed 5 refl refl

abbrev writes : List Write
writes =
    create_user (new_user 2 3 "bob@example.com" "h" "Bob")
    ∷ update_user (record alice { email = "bob@example.com" })
    ∷ delete_expired
    ∷ []

world-IsUnique : IsUnique world
unfolding IsUnique
world-IsUnique = ((tt, tt), (tt, tt))

left_by_all-IsUnique_example : IsUnique (left_by_all writes world)
left_by_all-IsUnique_example = left_by_all-IsUnique writes world world-IsUnique

abbrev sent : Message
sent = record (new_assistant_message 4 3 5 "calling" (call_of "c1" "calculator" ∷ []) "m") {
  latency = 1500000;
}

scan_message-inserted_message_example :
    scan_message
      (λ calls. "[...]")
      (λ t. sent.tool_calls)
      (inserted_message (λ calls. "[...]") (λ t. sent.tool_calls) 9 sent)
    ≡ some (row_of 9 sent)
unfolding new_assistant_message
scan_message-inserted_message_example =
    scan_message-inserted_message (λ calls. "[...]") (λ t. sent.tool_calls) 9 sent refl
      (omega arith)

latency_cut : (row_of 9 sent).latency ≡ 1000000
unfolding new_assistant_message
latency_cut = refl
