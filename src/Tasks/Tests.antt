-- ===== src/Tasks/Tests.antt =====
-- app.js, background tasks: runs at concrete inputs.
use moment_ferry.Common.{ℕ, ◌<◌, [], some, Text, codes, arith, ◌≡◌}
use moment_ferry.Tasks.{Task, Tasks, resolved, initial, get, count, run_background_task, settle}
use moment_ferry.Tasks.Steps.{Reach, here, next, run, settles}
use moment_ferry.Tasks.Invariant.{Inv, Reach-Inv}
use moment_ferry.Tasks.InFlight.{pending-run_background_task}

abbrev one_running : Tasks
one_running = (run_background_task [] (codes "scan:1") (codes "Scan") (codes "shares") 10 initial).0

one_running-Reach : Reach [] initial one_running
one_running-Reach = next here (run (codes "scan:1") (codes "Scan") (codes "shares") 10 initial)

busy : 0 < count 0 one_running.pending
unfolding run_background_task
busy = omega arith

one_settled-Reach : Reach [] initial (settle [] 0 resolved 20 one_running)
one_settled-Reach = next one_running-Reach (settles 0 resolved 20 one_running busy)

Reach-Inv_example : Inv (settle [] 0 resolved 20 one_running)
Reach-Inv_example = Reach-Inv [] one_settled-Reach

pending-run_background_task_example :
    (x : Task) × (get x.key one_running.entries ≡ some x)
    × (x.serial ≡ 0)
    × ((label view : Text) (now : ℕ)
        → run_background_task [] x.key label view now one_running ≡ (one_running, 0))
pending-run_background_task_example =
    pending-run_background_task [] one_running 0 one_running-Reach busy
