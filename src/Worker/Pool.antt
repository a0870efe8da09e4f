-- ===== src/Worker/Pool.antt =====
-- pool.go, a step of one goroutine at a time. A schedule is a list of events: which goroutine moves,
-- and for a `select` with several cases ready, the case it takes. A job is a number.
use go_agent_api.Base.{
  ◌≡◌, ℕ, zero, suc, Bool, true, false, not, ◌&&◌, Option, none, some, List, [], ◌∷◌, ◌++◌, length,
  ltb, leb, ◌==◌, if◌then◌else◌,
}

abbrev pub Job : Type 0
Job = ℕ

-- Pool, with its goroutines. `idle` workers stand at their `select`, or before it; the wait group
-- counts `idle` and `running`. The last fields are the history of the pool.
pub record Pool : Type 0 where
  pub capacity : ℕ
  pub jobs : List Job
  pub closed : Bool
  pub cancelled : Bool
  pub idle : ℕ
  pub running : List Job
  pub exited : ℕ
  -- the jobs that a send was made of, that a worker received, and that returned
  pub accepted : List Job
  pub started : List Job
  pub finished : List Job

-- NewPool
unfoldable pub new_pool : ℕ → ℕ → Pool
new_pool workers queue_size = record {
  capacity = queue_size;
  jobs = [];
  closed = false;
  cancelled = false;
  idle = workers;
  running = [];
  exited = 0;
  accepted = [];
  started = [];
  finished = [];
}

-- the case of a `select` of Submit and SubmitWait: the send, `<-p.ctx.Done()`, and `default`
pub data Case : Type 0 where
  send done otherwise : Case

pub data Event : Type 0 where
  submit : Job → Case → Event
  submit_wait : Job → Case → Event
  -- `p.cancel()` and `close(p.jobs)` of Shutdown, and the return of its `p.wg.Wait()`
  cancel close waited : Event
  -- a worker receives a job, its job returns, or it returns
  receive : Event
  job_done : Job → Event
  leave : Event

pub data Reply : Type 0 where
  moved : Reply
  returned : Bool → Reply
  panics : Reply

abbrev pub Outcome : Type 0
Outcome = Option (Reply × Pool)

-- A send to a channel without a buffer meets a worker that waits; it blocks where none does.
unfoldable pub hand_over : Job → ℕ → Pool → Outcome
hand_over j zero p = none
hand_over j (suc n) p = some (
  returned true,
  record p {
    idle = n;
    running = j ∷ p.running;
    accepted = p.accepted ++ j ∷ [];
    started = p.started ++ j ∷ [];
  },
)

abbrev pub enqueue : Job → Pool → Pool
enqueue j p = record p { jobs = p.jobs ++ j ∷ []; accepted = p.accepted ++ j ∷ [] }

-- `p.jobs <- job`: on a closed channel it panics.
unfoldable pub send_job : Job → Pool → Outcome
unfolding hand_over
send_job j p =
    if p.closed
    then some (panics, p)
    else if ltb (length p.jobs) p.capacity
    then some (returned true, enqueue j p)
    else if p.capacity == 0
    then hand_over j p.idle p
    else none

abbrev pub see_done : Pool → Outcome
see_done p = if p.cancelled then some (returned false, p) else none

-- `default`, when neither the send nor `Done` is ready
abbrev pub may_fall_through : Pool → Bool
may_fall_through p = not p.cancelled && not p.closed && leb p.capacity (length p.jobs)

abbrev pub fall_through : Pool → Outcome
fall_through p = if may_fall_through p then some (returned false, p) else none

unfoldable pub receive_job : ℕ → List Job → Pool → Outcome
receive_job (suc n) (j ∷ rest) p = some (
  moved,
  record p { idle = n; jobs = rest; running = j ∷ p.running; started = p.started ++ j ∷ [] },
)
receive_job zero jobs p = none
receive_job (suc n) [] p = none

-- `return` in the worker's loop: `Done` is ready, or the channel is closed and empty
abbrev pub may_leave : List Job → Pool → Bool
may_leave [] p = if p.cancelled then true else p.closed
may_leave (j ∷ rest) p = p.cancelled

unfoldable pub leave_pool : ℕ → Pool → Outcome
leave_pool zero p = none
leave_pool (suc n) p =
    if may_leave p.jobs p then some (moved, record p { idle = n; exited = suc p.exited }) else none

unfoldable pub remove_job : Job → List Job → Option (List Job)
remove_job j [] = none
remove_job j (i ∷ rest) =
    let others = remove_job j rest in
    if i == j then some rest else elim others [ none ↦ none | some l ↦ some (i ∷ l) ]

abbrev pub finish_job : Job → Option (List Job) → Pool → Outcome
finish_job j none p = none
finish_job j (some rest) p =
    some (moved, record p { idle = suc p.idle; running = rest; finished = j ∷ p.finished })

-- the return of `p.wg.Wait()`
abbrev pub all_gone : ℕ → List Job → Bool
all_gone zero [] = true
all_gone _ _ = false

unfoldable pub step : Event → Pool → Outcome
unfolding send_job receive_job leave_pool remove_job
step (submit j send) p = send_job j p
step (submit j done) p = see_done p
step (submit j otherwise) p = fall_through p
step (submit_wait j send) p = send_job j p
step (submit_wait j done) p = see_done p
step (submit_wait j otherwise) p = none
step cancel p = some (moved, record p { cancelled = true })
step close p = if p.closed then some (panics, p) else some (moved, record p { closed = true })
step waited p = if all_gone p.idle p.running then some (moved, p) else none
step receive p = receive_job p.idle p.jobs p
step (job_done j) p = finish_job j (remove_job j p.running) p
step leave p = leave_pool p.idle p

-- The pools that a schedule from NewPool reaches.
pub data Reach (workers queue_size : ℕ) : Pool → Type 0 where
  start : Reach workers queue_size (new_pool workers queue_size)
  later :
      {p q : Pool} {r : Reply}
      → Reach workers queue_size p
      → (e : Event) → step e p ≡ some (r, q)
      → Reach workers queue_size q
