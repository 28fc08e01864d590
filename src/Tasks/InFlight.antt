-- ===== src/Tasks/InFlight.antt =====
-- app.js, background tasks: what the callers of runBackgroundTask and the clock rely on.
use moment_ferry.Common.{ℕ, ◌<◌, some, ◌≡◌, refl, subst, Text}
use moment_ferry.I18n.{Messages}
use moment_ferry.Tasks.{Task, Tasks, get, run_background_task, initial, count}
use moment_ferry.Tasks.Steps.{Reach}
use moment_ferry.Tasks.Invariant.{Inv, Reach-Inv}
use moment_ferry.Tasks.Invariant.Lists.{running-get}

-- In every reachable state, an action that has not settled belongs to a running task in the map; and
-- whoever asks for that task's key, under any label and view and at any time, gets the promise of
-- that action, while nothing is started and nothing changes.
pub pending-run_background_task :
    (messages : Messages) (s : Tasks) (n : ℕ)
    → Reach messages initial s
    → 0 < count n s.pending
    → (x : Task) × (get x.key s.entries ≡ some x)
      × (x.serial ≡ n)
      × ((label view : Text) (now : ℕ)
          → run_background_task messages x.key label view now s ≡ (s, n))
unfolding run_background_task
pending-run_background_task messages s n r h =
    let v : Inv s = Reach-Inv messages r in
    let (x, found, same, busy) =
      running-get n s.entries v.unique_keys (subst (λ k. 0 < k) (v.in_flight n) h) in
    (x, found, same, λ label view now. rw (found, run_background_task) (rw (busy, same) refl))
