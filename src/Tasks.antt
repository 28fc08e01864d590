-- ===== src/Tasks.antt =====
-- src/MomentFerry.Web/wwwroot/app.js, background tasks: the map of tasks, the clock that refreshes
-- their durations, and runBackgroundTask with the promise that it chains.
-- A task object is known by its serial number. `pending` and `finishing` are the runtime's: the
-- tasks whose action has not settled, and those whose `finally` handler has yet to run.
pub mod Steps
pub mod Invariant
pub mod InFlight
mod Tests
use moment_ferry.Common.{
  ℕ, zero, suc, ◌+◌, List, [], ◌∷◌, ◌++◌, Option, none, some, Bool, true, false, if◌then◌else◌,
  ◌==◌, Text, codes, text_eq, filter, some_of, find,
}
use moment_ferry.I18n.{Messages, t}

pub data TaskState : Type 0 where
  running success error : TaskState

pub record Task : Type 0 where
  pub serial : ℕ
  pub key : Text
  pub label : Text
  pub view : Text
  pub state : TaskState
  pub detail : Text
  pub started_at : ℕ
  pub finished_at : Option ℕ

pub record Tasks : Type 0 where
  pub entries : List Task
  pub clock : Bool
  pub next_serial : ℕ
  pub pending : List ℕ
  pub finishing : List ℕ

abbrev pub is_running : Task → Bool
is_running task = elim task.state [ running ↦ true | _ ↦ false ]

-- `backgroundTasks.get(key)`
abbrev pub get : Text → List Task → Option Task
get key = find λ task. text_eq task.key key

-- `backgroundTasks.set(key, task)`: a key that is present keeps its place.
pub set : Task → List Task → List Task
set task [] = task ∷ []
set task (x ∷ xs) = if text_eq x.key task.key then task ∷ xs else x ∷ set task xs

-- updateTaskClock
pub update_task_clock : Tasks → Tasks
update_task_clock s =
    if some_of is_running s.entries
    then if s.clock then s else record s { clock = true }
    else if s.clock
    then record s { clock = false }
    else s

abbrev pub new_task : Messages → ℕ → Text → Text → Text → ℕ → Task
new_task messages serial key label view now = record {
  serial = serial;
  key = key;
  label = label;
  view = view;
  state = running;
  detail = t messages (codes "Running") none;
  started_at = now;
  finished_at = none;
}

-- A new task enters the map, and its action is scheduled.
pub start : Messages → Text → Text → Text → ℕ → Tasks → Tasks
unfolding set update_task_clock
start messages key label view now s = update_task_clock (record s {
  entries = set (new_task messages s.next_serial key label view now) s.entries;
  next_serial = suc s.next_serial;
  pending = s.next_serial ∷ s.pending;
})

-- runBackgroundTask, and the serial number of the task whose promise it returns.
pub run_background_task : Messages → Text → Text → Text → ℕ → Tasks → Tasks × ℕ
unfolding start
run_background_task messages key label view now s = elim (get key s.entries) [
  | none ↦ (start messages key label view now s, s.next_serial)
  | some existing ↦
      if is_running existing
      then (s, existing.serial)
      else (start messages key label view now s, s.next_serial)
]

-- What the action of a task comes to.
pub data Outcome : Type 0 where
  resolved : Outcome
  rejected : Text → Outcome

pub finished : Messages → Outcome → ℕ → Task → Task
finished messages resolved now task = record task {
  state = success;
  detail = t messages (codes "Completed") none;
  finished_at = some now;
}
finished messages (rejected message) now task = record task {
  state = error;
  detail = message;
  finished_at = some now;
}

-- The task object with a serial number is changed in place.
pub change : ℕ → (Task → Task) → List Task → List Task
change serial f [] = []
change serial f (x ∷ xs) = if x.serial == serial then f x ∷ xs else x ∷ change serial f xs

pub remove : ℕ → List ℕ → List ℕ
remove n [] = []
remove n (x ∷ xs) = if x == n then xs else x ∷ remove n xs

-- The `then` or the `catch` handler of a task.
pub settle : Messages → ℕ → Outcome → ℕ → Tasks → Tasks
unfolding change finished remove
settle messages serial outcome now s = record s {
  entries = change serial (finished messages outcome now) s.entries;
  pending = remove serial s.pending;
  finishing = serial ∷ s.finishing;
}

-- Its `finally` handler.
pub finish : ℕ → Tasks → Tasks
unfolding update_task_clock remove
finish serial s = update_task_clock (record s { finishing = remove serial s.finishing })

-- The button that clears the finished tasks.
pub clear_finished : Tasks → Tasks
clear_finished s = record s { entries = filter is_running s.entries }

abbrev pub initial : Tasks
initial = record { entries = []; clock = false; next_serial = 0; pending = []; finishing = [] }

-- How often a number occurs.
abbrev pub count : ℕ → List ℕ → ℕ
count n [] = 0
count n (x ∷ xs) = (if x == n then 1 else 0) + count n xs
