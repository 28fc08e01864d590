-- ===== src/Tasks/Steps.antt =====
-- app.js, background tasks: what can happen to them, one event at a time.
use moment_ferry.Common.{ℕ, ◌<◌, Text}
use moment_ferry.I18n.{Messages}
use moment_ferry.Tasks.{Tasks, Outcome, run_background_task, settle, finish, clear_finished, count}

-- A caller starts a task, an action settles, a `finally` handler runs, or the button is pressed.
pub data Step (messages : Messages) : Tasks → Tasks → Type 0 where
  run :
      (key label view : Text) (now : ℕ) (s : Tasks)
      → Step messages s (run_background_task messages key label view now s).0
  settles :
      (serial : ℕ) (outcome : Outcome) (now : ℕ) (s : Tasks)
      → 0 < count serial s.pending
      → Step messages s (settle messages serial outcome now s)
  finishes :
      (serial : ℕ) (s : Tasks) → 0 < count serial s.finishing → Step messages s (finish serial s)
  clears : (s : Tasks) → Step messages s (clear_finished s)

pub data Reach (messages : Messages) (s : Tasks) : Tasks → Type 0 where
  here : Reach messages s s
  next : {u v : Tasks} → Reach messages s u → Step messages u v → Reach messages s v
