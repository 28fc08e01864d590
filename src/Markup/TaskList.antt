-- ===== src/Markup/TaskList.antt =====
-- app.js, renderBackgroundTasks: the list of the task center.
use moment_ferry.Common.{
  ℕ, List, [], ◌∷◌, ◌++◌, Option, none, some, Bool, not, if◌then◌else◌, ◌==◌, Text, codes, filter,
  sort_falling, take, length, flat_map, every, is_empty, or_else_text,
}
use moment_ferry.I18n.{t}
use moment_ferry.Format.{Locale, format_number}
use moment_ferry.Markup.{Piece, lit, value, word, Part, always, either, pieces, said}
use moment_ferry.Format.{task_duration}
use moment_ferry.Tasks.{Task, TaskState, running, success, error, is_running}

unfoldable pub latest_first : List Task → List Task
unfolding sort_falling
latest_first = sort_falling (λ task. task.started_at)

abbrev pub state_key : TaskState → Text
state_key running = codes "running"
state_key success = codes "success"
state_key error = codes "error"

abbrev pub state_text : Locale → TaskState → Text
state_text l running = said l "Running"
state_text l success = said l "Completed"
state_text l error = said l "Failed"

abbrev pub dot_class : TaskState → Text
dot_class running = codes "dot-amb"
dot_class success = codes "dot-acc"
dot_class error = codes "dot-red"

-- `task.finishedAt || Date.now()`
abbrev pub end_of : ℕ → Task → ℕ
end_of now task = elim task.finished_at [ none ↦ now | some at ↦ at ]

abbrev pub task_content : Locale → ℕ → Task → List Part
task_content l now task =
    always (
      lit (codes "\n      <span class=\"dot ")
      ∷ word (dot_class task.state)
      ∷ lit (
          codes
            "\"></span>\n      <span class=\"task-row-main\">\n        <span class=\"task-row-label\">")
      ∷ value task.label
      ∷ lit (codes "</span>\n        <span class=\"task-row-detail\">")
      ∷ value (or_else_text task.detail (state_text l task.state))
      ∷ lit (codes "</span>\n      </span>\n      <span class=\"task-row-time\">")
      ∷ word (task_duration task.started_at (end_of now task))
      ∷ lit (codes "</span>")
      ∷ [])
    ∷ []

-- A task with a view is a button that leads there.
abbrev pub task_row : Locale → ℕ → Task → List Part
task_row l now task =
    either (not (is_empty task.view))
      (lit (codes "<button class=\"task-row task-")
        ∷ word (state_key task.state)
        ∷ lit (codes "\" type=\"button\" data-view=\"")
        ∷ value task.view
        ∷ lit (codes "\">")
        ∷ [])
      (lit (codes "<div class=\"task-row task-")
        ∷ word (state_key task.state)
        ∷ lit (codes "\">")
        ∷ [])
    ∷ (task_content l now task
        ++ (either (not (is_empty task.view)) (lit (codes "</button>") ∷ [])
              (lit (codes "</div>") ∷ [])
            ∷ []))

-- The summary, whether the button that clears is hidden, and the rows.
pub record TaskCenter : Type 0 where
  pub summary : Text
  pub clear_hidden : Bool
  pub rows : List Piece

abbrev pub task_rows : Locale → ℕ → List Task → List Piece
task_rows l now tasks = flat_map (λ x. pieces (task_row l now x)) (take 6 (latest_first tasks))

abbrev pub summary_of : Locale → ℕ → ℕ → Text
summary_of l busy all =
    if not (busy == 0)
    then t l.messages (codes "{{count}} running · you can change views")
        (some ((codes "count", format_number l (some busy)) ∷ []))
    else t l.messages (codes "{{count}} finished")
        (some ((codes "count", format_number l (some all)) ∷ []))

-- none: the center is hidden.
unfoldable pub render_background_tasks : Locale → ℕ → List Task → Option TaskCenter
unfolding latest_first
render_background_tasks l now [] = none
render_background_tasks l now (x ∷ xs) = some (record {
  summary = summary_of l (length (filter is_running (x ∷ xs))) (length (x ∷ xs));
  clear_hidden = every is_running (x ∷ xs);
  rows = task_rows l now (x ∷ xs);
})
