-- ===== src/Preview.antt =====
-- src/MomentFerry.Web/wwwroot/app.js, waitForRoutingPreview: the loop that asks for a job of the server
-- until the job is over. What the preview shows of the result is Markup.Preview's.
pub mod Wait
mod Tests
use moment_ferry.Common.{
  ℕ, List, [], ◌∷◌, ◌++◌, Option, none, some, Bool, true, false, if◌then◌else◌, ◌==◌, Text, codes,
  ◌⊎◌, inl, inr,
}
use moment_ferry.I18n.{t}
use moment_ferry.Format.{Locale, format_number}
use moment_ferry.Markup.{said}
use moment_ferry.Markup.Preview.{PreviewResult}
use moment_ferry.Tasks.{Task, Tasks, get}

pub record Progress : Type 0 where
  pub phase : Text
  pub processed : ℕ
  pub total : ℕ

pub record Job : Type 0 where
  pub id : Text
  pub is_completed : Bool
  pub error : Option Text
  pub progress : Option Progress
  -- The result of a job that is over.
  pub result : PreviewResult

-- An answer is a job, or a request that failed with a message.
abbrev pub JobAnswer : Type 0
JobAnswer = Job ⊎ Text

pub data Outcome : Type 0 where
  returned : PreviewResult → Outcome
  threw : Text → Outcome
  -- The request that is out: its path after /api/v1.
  asking : Text → Outcome

-- What the loop does, and the details that it gives the task meanwhile.
pub record Waited : Type 0 where
  pub details : List Text
  pub outcome : Outcome

-- `task.detail` of a job that runs; a total of zero counts as none.
abbrev pub detail_of : Locale → Option Progress → Text
detail_of l none = said l "starting…"
detail_of l (some p) =
    if p.total == 0
    then said l "starting…"
    else t l.messages p.phase none
      ++ (codes " · "
          ++ (format_number l (some p.processed)
              ++ (codes " / " ++ format_number l (some p.total))))

-- After the loop: `if (job.error) throw …`; an empty error counts as none.
abbrev pub verdict_of : Locale → Job → Outcome
verdict_of l job = elim job.error [
  | none ↦ returned job.result
  | some [] ↦ returned job.result
  | some (c ∷ s) ↦ threw (t l.messages (c ∷ s) none)
]

abbrev pub start_path : Text → Text
start_path share_id = codes "/shares/" ++ (share_id ++ codes "/routing-preview")

abbrev pub job_path : Job → Text
job_path job = codes "/routing-preview-jobs/" ++ job.id

-- The loop at a job: `more` is what comes of the request for the job, one and a half seconds later.
abbrev pub at_job : Locale → Job → Waited → Waited
at_job l job more =
    if job.is_completed
    then record { details = []; outcome = verdict_of l job }
    else record { details = detail_of l job.progress ∷ more.details; outcome = more.outcome }

-- waitForRoutingPreview on the answers that it gets, from the request at `path` on.
unfoldable pub wait_for_preview : Locale → Text → List JobAnswer → Waited
wait_for_preview l path [] = record { details = []; outcome = asking path }
wait_for_preview l path (inr message ∷ answers) = record { details = []; outcome = threw message }
wait_for_preview l path (inl job ∷ answers) =
    at_job l job (wait_for_preview l (job_path job) answers)
