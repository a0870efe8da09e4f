-- ===== src/Store/Messages.antt =====
-- message_repository.go. The SERIAL column numbers the rows as they are inserted, so the rows of a
-- table, and any selection of them, stand in the order of their sequence numbers.
use go_agent_api.Base.{
  ℕ, suc, ◌-◌, ◌*◌, ◌/◌, Bool, not, ◌&&◌, List, [], ◌∷◌, ◌++◌, length, ◌==◌, any, select, take,
  drop,
}
use go_agent_api.Base.Exec.{Exec, Result, ok, err}
use go_agent_api.Entity.Message.{Message}
use go_agent_api.Store.Links.{clear_messages}
use go_agent_api.Store.World.{World, run, statement, writes, refused_if, gets}

abbrev pub has_id : ℕ → Message → Bool
has_id id m = m.id == id

abbrev pub is_in : ℕ → Message → Bool
is_in conversation_id m = m.conversation_id == conversation_id

-- The row of a message: the latency is kept in whole milliseconds.
abbrev pub row_of : ℕ → Message → Message
row_of sequence m = record m { latency = m.latency / 1000000 * 1000000; sequence_number = sequence }

abbrev pub insert_message : Message → World → World
insert_message m w = record w {
  messages = w.messages ++ row_of w.next_sequence m ∷ [];
  next_sequence = suc w.next_sequence;
}

unfoldable pub create : Message → Exec World (Unit {0})
unfolding run
create msg =
    run "create message" (refused_if (λ w. any (has_id msg.id) w.messages) (insert_message msg))

-- The loop of CreateBatch inside its transaction.
insert_all : List Message → Exec World (Unit {0})
unfolding run statement
insert_all [] w = (ok tt, w)
insert_all (m ∷ rest) w =
    let (r, v) =
      run "create batch message" (refused_if (λ v. any (has_id m.id) v.messages) (insert_message m))
        w in
    elim r [ ok _ ↦ insert_all rest v | err x ↦ (err x, v) ]

-- The deferred Rollback puts the rows back; the sequence and the statements' fates are used up.
abbrev settle : World → Result (Unit {0}) × World → Result (Unit {0}) × World
settle before (ok u, w) = (ok u, w)
settle before (err x, w) = (err x, record w { messages = before.messages })

-- the commit
abbrev commit : World → Result (Unit {0}) × World → Result (Unit {0}) × World
commit before (ok u, w) = settle before (statement (λ v. (ok tt, v)) w)
commit before (err x, w) = settle before (err x, w)

abbrev batch : World → Result (Unit {0}) × World → List Message → Result (Unit {0}) × World
batch before (err x, w) msgs = (err x, w)
batch before (ok u, w) msgs = commit before (insert_all msgs w)

unfoldable pub create_batch : List Message → Exec World (Unit {0})
unfolding run insert_all
create_batch msgs w = batch w (run "begin tx" (λ v. (ok tt, v)) w) msgs

unfoldable pub find_by_conversation_id : ℕ → Exec World (List Message)
unfolding run
find_by_conversation_id id = run "query messages" (gets (λ w. select (is_in id) w.messages))

unfoldable pub find_by_conversation_id_paginated : ℕ → ℕ → ℕ → Exec World (List Message)
unfolding run
find_by_conversation_id_paginated id limit offset =
    run "query messages" (gets (λ w. take limit (drop offset (select (is_in id) w.messages))))

abbrev last_n : ℕ → List Message → List Message
last_n n rows = drop (length rows - n) rows

unfoldable pub find_last_n : ℕ → ℕ → Exec World (List Message)
unfolding run
find_last_n id n = run "query messages" (gets (λ w. last_n n (select (is_in id) w.messages)))

unfoldable pub count_by_conversation_id : ℕ → Exec World ℕ
unfolding run
count_by_conversation_id id =
    run "count messages" (gets (λ w. length (select (is_in id) w.messages)))

unfoldable pub delete : ℕ → Exec World (Unit {0})
unfolding run
delete id = run "delete message" (
    writes (λ w. record w {
      messages = select (λ m. not (has_id id m)) w.messages;
      executions = clear_messages (λ i. i == id) w.executions;
    }))

unfoldable pub delete_by_conversation_id : ℕ → Exec World (Unit {0})
unfolding run
delete_by_conversation_id id = run "delete messages by conversation" (
    writes (λ w. record w {
      messages = select (λ m. not (is_in id m)) w.messages;
      executions =
          clear_messages (λ i. any (λ m. has_id i m && is_in id m) w.messages) w.executions;
    }))
