-- ===== src/Worker/Shutdown.antt =====
-- Shutdown of pool.go: what the workers still do once the channel is closed.
use go_agent_api.Base.{
  ℕ, zero, suc, ◌+◌, ◌*◌, ◌≤◌, Bool, true, false, Option, none, some, List, [], ◌∷◌, ◌++◌, length,
  All, if◌then◌else◌, ◌≡◌, refl, ap, ◌∙◌, arith, ◌⊎◌, inl, inr, ==_self,
}
use mathlib.Core.Path.{subst}
use go_agent_api.Worker.Pool.{
  Job, Pool, Event, submit, submit_wait, cancel, close, waited, receive, job_done, leave, moved,
  Outcome, receive_job, leave_pool, remove_job, finish_job, may_leave, step,
}
use go_agent_api.Worker.Invariant.{length-remove_job}

-- The events of the workers alone.
abbrev pub OfWorker : Event → Type 0
OfWorker receive = Unit
OfWorker (job_done j) = Unit
OfWorker leave = Unit
OfWorker _ = ⊥

-- The moves that the workers have left: a queued job is received and returns, and a worker leaves.
abbrev pub load : Pool → ℕ
load p = 3 * length p.jobs + (2 * length p.running + p.idle)

abbrev pub then_run : (Pool → Option Pool) → Outcome → Option Pool
then_run go none = none
then_run go (some (r, q)) = go q

-- The pool after a schedule, if each of its events can happen.
unfoldable pub run : List Event → Pool → Option Pool
run [] p = some p
run (e ∷ es) p = then_run (run es) (step e p)

-- The outcome of a worker's move is lighter, and as closed as before.
abbrev Lighter : Pool → Outcome → Type 0
Lighter p none = Unit
Lighter p (some (r, q)) = (suc (load q) ≤ load p) × (q.closed ≡ p.closed)

receive-Lighter :
    (n : ℕ) (jobs : List Job) (p : Pool)
    → p.idle ≡ n
    → p.jobs ≡ jobs
    → Lighter p (receive_job n jobs p)
unfolding receive_job
receive-Lighter zero jobs p e f = tt
receive-Lighter (suc n) [] p e f = tt
receive-Lighter (suc n) (j ∷ rest) p e f = (omega (arith, e, ap length f), refl)

leave-Lighter : (n : ℕ) (p : Pool) → p.idle ≡ n → Lighter p (leave_pool n p)
unfolding leave_pool
leave-Lighter zero p e = tt
leave-Lighter (suc n) p e = go (may_leave p.jobs p)
  where
    go :
        (b : Bool)
        → Lighter p (if b then some (moved, record p { idle = n; exited = suc p.exited }) else none)
    go true = (omega (arith, e), refl)
    go false = tt

finish-Lighter :
    (j : Job) (o : Option (List Job)) (p : Pool)
    → remove_job j p.running ≡ o
    → Lighter p (finish_job j o p)
finish-Lighter j none p e = tt
finish-Lighter j (some rest) p e = (omega (arith, length-remove_job j p.running rest e), refl)

step-Lighter : (e : Event) (p : Pool) → OfWorker e → Lighter p (step e p)
unfolding step
step-Lighter receive p w = receive-Lighter p.idle p.jobs p refl refl
step-Lighter (job_done j) p w = finish-Lighter j (remove_job j p.running) p refl
step-Lighter leave p w = leave-Lighter p.idle p refl
step-Lighter (submit j c) p w = absurd w
step-Lighter (submit_wait j c) p w = absurd w
step-Lighter cancel p w = absurd w
step-Lighter close p w = absurd w
step-Lighter waited p w = absurd w

-- What a pool whose channel is closed can do next: return from Wait, or let a worker move.
abbrev pub Next : Pool → Type 0
Next p =
    (step waited p ≡ some (moved, p))
    ⊎ ((e : Event) × OfWorker e × (q : Pool) × (step e p ≡ some (moved, q)))

Next-cases :
    (n : ℕ) (running jobs : List Job) (p : Pool)
    → p.idle ≡ n
    → p.running ≡ running
    → p.jobs ≡ jobs
    → p.closed ≡ true
    → Next p
unfolding step receive_job leave_pool remove_job
Next-cases n (j ∷ rest) jobs p e f g c = inr (
  job_done j,
  tt,
  record p { idle = suc p.idle; running = rest; finished = j ∷ p.finished },
  ap (λ l. finish_job j (remove_job j l) p) f ∙ rw (==_self j) refl,
)
Next-cases zero [] jobs p e f g c = inl (ground (arith, e, f))
Next-cases (suc n) [] (j ∷ rest) p e f g c = inr (
  receive,
  tt,
  record p { idle = n; jobs = rest; running = j ∷ p.running; started = p.started ++ j ∷ [] },
  ap (λ m. receive_job m p.jobs p) e ∙ ap (λ l. receive_job (suc n) l p) g,
)
Next-cases (suc n) [] [] p e f g c = inr (
  leave,
  tt,
  record p { idle = n; exited = suc p.exited },
  ap (λ m. leave_pool m p) e ∙ ground (arith, g, c),
)

then_ok :
    (p : Pool) (es : List Event) (o : Outcome) {q : Pool}
    → Lighter p o
    → then_run (run es) o ≡ some q
    → (m : Pool) × (run es m ≡ some q) × (suc (load m) ≤ load p) × (m.closed ≡ p.closed)
then_ok p es none h e = absurd (ground (arith, e))
then_ok p es (some (r, m)) (a, b) e = (m, e, a, b)

-- Once the channel is closed, the workers make at most 3 moves for each queued job, 2 for each
-- running one and 1 for each idle worker, in whatever order they move; and when they have made some
-- of them, Wait returns, or a worker can make another.
pub run-closed :
    (es : List Event) (p q : Pool)
    → p.closed ≡ true
    → All OfWorker es
    → run es p ≡ some q
    → (length es + load q ≤ load p) × Next q
unfolding run
run-closed [] p q c ws e =
    subst (λ x. (0 + load x ≤ load p) × Next x) (ground (arith, e))
      (omega arith, Next-cases p.idle p.running p.jobs p refl refl refl c)
run-closed (x ∷ es) p q c (w, ws) e =
    let (m, ran, less, same) = then_ok p es (step x p) (step-Lighter x p w) e in
    let (short, next) = run-closed es m q (same ∙ c) ws ran in (omega (arith, short, less), next)
