-- ===== src/Worker/Invariant.antt =====
-- What holds of a pool in every schedule.
use go_agent_api.Base.{
  ℕ, zero, suc, ◌+◌, ◌≤◌, Bool, true, false, Option, none, some, List, [], ◌∷◌, ◌++◌, length,
  length-append, ltb, ◌==◌, if◌then◌else◌, ◌≡◌, refl, ap, sym, ◌∙◌, arith, Option-cases, Bool-cases,
  inl, inr, ◌<◌,
}
use mathlib.Core.List.{append_assoc, append-nil}
use mathlib.Core.Path.{subst}
use go_agent_api.Worker.Pool.{
  Job, Pool, new_pool, send, done, otherwise, Event, submit, submit_wait, cancel, close, waited,
  receive, job_done, leave, Reply, Outcome, hand_over, send_job, receive_job, leave_pool,
  remove_job, finish_job, step, Reach, start, later, enqueue, may_leave, may_fall_through, all_gone,
  moved, returned,
}

-- How often a job stands in a list.
abbrev pub occurrences : Job → List Job → ℕ
occurrences j [] = 0
occurrences j (i ∷ rest) = if i == j then suc (occurrences j rest) else occurrences j rest

pub occurrences-append :
    (j : Job) (xs ys : List Job) → occurrences j (xs ++ ys) ≡ occurrences j xs + occurrences j ys
occurrences-append j [] ys = omega arith
occurrences-append j (x ∷ xs) ys = ground (arith, occurrences-append j xs ys)

-- The books of a pool: the queue within its capacity, the workers all counted, the jobs received in
-- the order in which they were accepted, and each received job either running or returned.
pub record IsKept (workers : ℕ) (p : Pool) : Type 0 where
  pub within : length p.jobs ≤ p.capacity
  pub workers_counted : p.idle + (length p.running + p.exited) ≡ workers
  pub in_order : p.started ++ p.jobs ≡ p.accepted
  pub each_once :
      (j : Job) → occurrences j p.started ≡ occurrences j p.running + occurrences j p.finished

new_pool-IsKept : (workers queue_size : ℕ) → IsKept workers (new_pool workers queue_size)
unfolding new_pool
new_pool-IsKept workers queue_size = record {
  within = omega arith;
  workers_counted = omega arith;
  in_order = refl;
  each_once = λ j. refl;
}

none_queued : (jobs : List Job) → length jobs ≤ 0 → jobs ≡ []
none_queued [] h = refl
none_queued (j ∷ jobs) h = absurd (omega (arith, h))

started_once :
    (i j : Job) (started running finished : List Job)
    → occurrences i started ≡ occurrences i running + occurrences i finished
    → occurrences i (started ++ j ∷ []) ≡ occurrences i (j ∷ running) + occurrences i finished
started_once i j started running finished h =
    ground (arith, h, occurrences-append i started (j ∷ []))

pub length-remove_job :
    (j : Job) (xs rest : List Job) → remove_job j xs ≡ some rest → length xs ≡ suc (length rest)
unfolding remove_job
length-remove_job j [] rest e = absurd (ground (arith, e))
length-remove_job j (x ∷ xs) rest e = elim (Bool-cases (x == j)) [
  | inl p ↦ ground (arith, p, e)
  | inr p ↦ elim (Option-cases (remove_job j xs)) [
    | inl q ↦ absurd (ground (arith, p, q, e))
    | inr (l, q) ↦ ground (arith, p, q, e, length-remove_job j xs l q)
  ]
]

occurrences-remove_job :
    (i j : Job) (xs rest : List Job)
    → remove_job j xs ≡ some rest
    → occurrences i xs ≡ occurrences i (j ∷ rest)
unfolding remove_job
occurrences-remove_job i j [] rest e = absurd (ground (arith, e))
occurrences-remove_job i j (x ∷ xs) rest e = elim (Bool-cases (x == j)) [
  | inl p ↦ ground (arith, p, e)
  | inr p ↦ elim (Option-cases (remove_job j xs)) [
    | inl q ↦ absurd (ground (arith, p, q, e))
    | inr (l, q) ↦ ground (arith, p, q, e, occurrences-remove_job i j xs l q)
  ]
]

removed_once :
    (i j : Job) (running rest finished : List Job)
    → remove_job j running ≡ some rest
    → occurrences i running + occurrences i finished
      ≡ occurrences i rest + occurrences i (j ∷ finished)
removed_once i j running rest finished e = ground (arith, occurrences-remove_job i j running rest e)

module _ (workers : ℕ) where
  -- The pool that an outcome holds keeps the books.
  abbrev pub Keeps : Outcome → Type 0
  Keeps none = Unit
  Keeps (some (r, q)) = IsKept workers q

  -- A change of the flags keeps the books.
  flags-IsKept :
      (c d : Bool) (p : Pool)
      → IsKept workers p
      → IsKept workers (record p { closed = c; cancelled = d })
  flags-IsKept c d p k = record {
    within = k.within;
    workers_counted = k.workers_counted;
    in_order = k.in_order;
    each_once = k.each_once;
  }

  enqueue-IsKept :
      (j : Job) (p : Pool)
      → length p.jobs < p.capacity
      → IsKept workers p
      → IsKept workers (enqueue j p)
  enqueue-IsKept j p room k = record {
    within = omega (arith, length-append {0} p.jobs (j ∷ []), room);
    workers_counted = k.workers_counted;
    in_order = sym (append_assoc p.started p.jobs (j ∷ [])) ∙ ap (λ l. l ++ j ∷ []) k.in_order;
    each_once = k.each_once;
  }

  hand_over-Keeps :
      (j : Job) (n : ℕ) (p : Pool)
      → p.idle ≡ n
      → p.jobs ≡ []
      → IsKept workers p
      → Keeps (hand_over j n p)
  unfolding hand_over
  hand_over-Keeps j zero p e empty k = tt
  hand_over-Keeps j (suc n) p e empty k = record {
    within = k.within;
    workers_counted = omega (arith, k.workers_counted, e);
    in_order =
        ap (λ l. (p.started ++ j ∷ []) ++ l) empty
        ∙ (append-nil (p.started ++ j ∷ [])
            ∙ ap (λ l. l ++ j ∷ [])
                (sym (append-nil p.started) ∙ ap (λ l. p.started ++ l) (sym empty) ∙ k.in_order));
    each_once = λ i. started_once i j p.started p.running p.finished (k.each_once i);
  }

  Keeps-if :
      (b : Bool) (x y : Outcome)
      → (b ≡ true → Keeps x)
      → (b ≡ false → Keeps y)
      → Keeps (if b then x else y)
  Keeps-if true x y h k = h refl
  Keeps-if false x y h k = k refl

  send_job-Keeps : (j : Job) (p : Pool) → IsKept workers p → Keeps (send_job j p)
  unfolding send_job
  send_job-Keeps j p k =
      Keeps-if p.closed _ _ (λ _. k)
        λ _.
          Keeps-if (ltb (length p.jobs) p.capacity) _ _
            (λ r. enqueue-IsKept j p (ground (arith, r)) k)
            λ r.
              Keeps-if (p.capacity == 0) _ _
                (λ z.
                  hand_over-Keeps j p.idle p refl (none_queued p.jobs (ground (arith, k.within, z)))
                    k)
                (λ z. tt)

  Keeps-guard :
      (b : Bool) (r : Reply) (q : Pool) → IsKept workers q → Keeps (if b then some (r, q) else none)
  Keeps-guard true r q k = k
  Keeps-guard false r q k = tt

  receive_job-Keeps :
      (n : ℕ) (jobs : List Job) (p : Pool)
      → p.idle ≡ n
      → p.jobs ≡ jobs
      → IsKept workers p
      → Keeps (receive_job n jobs p)
  unfolding receive_job
  receive_job-Keeps zero jobs p e f k = tt
  receive_job-Keeps (suc n) [] p e f k = tt
  receive_job-Keeps (suc n) (j ∷ rest) p e f k = record {
    within = omega (arith, k.within, ap length f);
    workers_counted = omega (arith, k.workers_counted, e);
    in_order = append_assoc p.started (j ∷ []) rest ∙ ap (λ l. p.started ++ l) (sym f) ∙ k.in_order;
    each_once = λ i. started_once i j p.started p.running p.finished (k.each_once i);
  }

  leave_pool-Keeps : (n : ℕ) (p : Pool) → p.idle ≡ n → IsKept workers p → Keeps (leave_pool n p)
  unfolding leave_pool
  leave_pool-Keeps zero p e k = tt
  leave_pool-Keeps (suc n) p e k =
      Keeps-guard (may_leave p.jobs p) moved (record p { idle = n; exited = suc p.exited })
        (record {
          within = k.within;
          workers_counted = omega (arith, k.workers_counted, e);
          in_order = k.in_order;
          each_once = k.each_once;
        })

  finish_job-Keeps :
      (j : Job) (o : Option (List Job)) (p : Pool)
      → remove_job j p.running ≡ o
      → IsKept workers p
      → Keeps (finish_job j o p)
  finish_job-Keeps j none p e k = tt
  finish_job-Keeps j (some rest) p e k = record {
    within = k.within;
    workers_counted = omega (arith, k.workers_counted, length-remove_job j p.running rest e);
    in_order = k.in_order;
    each_once = λ i. omega (arith, k.each_once i, removed_once i j p.running rest p.finished e);
  }

  -- Every step of a pool keeps its books.
  pub step-Keeps : (e : Event) (p : Pool) → IsKept workers p → Keeps (step e p)
  unfolding step
  step-Keeps (submit j send) p k = send_job-Keeps j p k
  step-Keeps (submit j done) p k = Keeps-guard p.cancelled (returned false) p k
  step-Keeps (submit j otherwise) p k = Keeps-guard (may_fall_through p) (returned false) p k
  step-Keeps (submit_wait j send) p k = send_job-Keeps j p k
  step-Keeps (submit_wait j done) p k = Keeps-guard p.cancelled (returned false) p k
  step-Keeps (submit_wait j otherwise) p k = tt
  step-Keeps cancel p k = flags-IsKept p.closed true p k
  step-Keeps close p k = Keeps-if p.closed _ _ (λ _. k) (λ _. flags-IsKept true p.cancelled p k)
  step-Keeps waited p k = Keeps-guard (all_gone p.idle p.running) moved p k
  step-Keeps receive p k = receive_job-Keeps p.idle p.jobs p refl refl k
  step-Keeps (job_done j) p k = finish_job-Keeps j (remove_job j p.running) p refl k
  step-Keeps leave p k = leave_pool-Keeps p.idle p refl k

  IsKept-some : (o : Outcome) {r : Reply} {q : Pool} → o ≡ some (r, q) → Keeps o → IsKept workers q
  IsKept-some none e k = absurd (ground (arith, e))
  IsKept-some (some (r, q)) e k = subst (IsKept workers) (ground (arith, e)) k

-- In every schedule of a pool: the queue holds no more jobs than its size, each worker is idle,
-- running a job or gone, the jobs are received in the order in which they were accepted, and each
-- job that was received is running or has returned, as often as it was received.
pub Reach-IsKept :
    {workers queue_size : ℕ} {p : Pool} → Reach workers queue_size p → IsKept workers p
Reach-IsKept {workers} {queue_size} start = new_pool-IsKept workers queue_size
Reach-IsKept {workers} (later {p} r e s) =
    IsKept-some workers (step e p) s (step-Keeps workers e p (Reach-IsKept r))
