-- ===== src/Examples/Jobs.antt =====
-- The theorems of the worker pool at two workers.
use go_agent_api.Base.{true, List, [], ◌∷◌, refl, ◌+◌, ◌≤◌, length}
use go_agent_api.Worker.Pool.{
  Pool, Event, new_pool, submit, send, receive, job_done, leave, Reach, start, later, step,
  send_job, hand_over, receive_job, remove_job, leave_pool,
}
use go_agent_api.Worker.Invariant.{IsKept, Reach-IsKept}
use go_agent_api.Worker.Shutdown.{load, run, Next, run-closed}

abbrev one_job : Pool
one_job = record (new_pool 2 3) { jobs = 7 ∷ []; accepted = 7 ∷ [] }

abbrev at_work : Pool
at_work = record one_job { jobs = []; idle = 1; running = 7 ∷ []; started = 7 ∷ [] }

at_work-Reach : Reach 2 3 at_work
unfolding step send_job hand_over receive_job new_pool
at_work-Reach = later (later start (submit 7 send) refl) receive refl

Reach-IsKept_example : IsKept 2 at_work
unfolding new_pool
Reach-IsKept_example = Reach-IsKept at_work-Reach

abbrev closed_pool : Pool
closed_pool = record at_work { closed = true; jobs = 8 ∷ []; accepted = 7 ∷ 8 ∷ [] }

abbrev last_moves : List Event
last_moves = receive ∷ job_done 7 ∷ job_done 8 ∷ leave ∷ []

abbrev almost_gone : Pool
almost_gone = record closed_pool {
  jobs = [];
  idle = 1;
  running = [];
  exited = 1;
  started = 7 ∷ 8 ∷ [];
  finished = 8 ∷ 7 ∷ [];
}

run-closed_example : (length last_moves + load almost_gone ≤ load closed_pool) × Next almost_gone
unfolding run step receive_job remove_job leave_pool new_pool
run-closed_example =
    run-closed last_moves closed_pool almost_gone refl (tt, (tt, (tt, (tt, tt)))) refl
