-- ===== src/Preview/Wait.antt =====
-- app.js, waitForRoutingPreview: where the loop ends, and what it asks until then.
use moment_ferry.Common.{
  ℕ, Option, none, some, if◌then◌else◌, ◌==◌, codes, ◌⊎◌, List, [], ◌∷◌, ◌++◌, true, false, Text,
  map, ◌≡◌, refl, inl, inr,
}
use moment_ferry.I18n.{t}
use moment_ferry.Format.{Locale, format_number}
use moment_ferry.Preview.{
  Progress, Job, JobAnswer, Outcome, returned, threw, asking, job_path, wait_for_preview,
}

-- Each of the jobs runs still.
abbrev pub Runs : List Job → Type 0
Runs [] = Unit
Runs (job ∷ jobs) = (job.is_completed ≡ false) × Runs jobs

-- Where a request goes after those jobs.
abbrev pub path_after : Text → List Job → Text
path_after path [] = path
path_after path (job ∷ jobs) = path_after (codes "/routing-preview-jobs/" ++ job.id) jobs

-- The phase with two numbers, or a fixed text where there is nothing to count yet.
abbrev pub shown_progress : Locale → Option Progress → Text
shown_progress l none = t l.messages (codes "starting…") none
shown_progress l (some p) =
    if p.total == 0
    then t l.messages (codes "starting…") none
    else t l.messages p.phase none
      ++ (codes " · "
          ++ (format_number l (some p.processed)
              ++ (codes " / " ++ format_number l (some p.total))))

abbrev pub details_of : Locale → List Job → List Text
details_of l [] = []
details_of l (job ∷ jobs) = shown_progress l job.progress ∷ details_of l jobs

-- What ends the wait: a request that fails, a job that is over with an error, or one that is over
-- without.
pub data Ends (l : Locale) : JobAnswer → Outcome → Type 0 where
  failed : (message : Text) → Ends l (inr message) (threw message)
  erred :
      (job : Job) (c : ℕ) (s : Text)
      → job.is_completed ≡ true
      → job.error ≡ some (c ∷ s)
      → Ends l (inl job) (threw (t l.messages (c ∷ s) none))
  succeeded :
      (job : Job)
      → job.is_completed ≡ true
      → (job.error ≡ none) ⊎ (job.error ≡ some [])
      → Ends l (inl job) (returned job.result)

stopping :
    (l : Locale) (path : Text) (a : JobAnswer) (rest : List JobAnswer) (o : Outcome)
    → Ends l a o
    → wait_for_preview l path (a ∷ rest) ≡ record { details = []; outcome = o }
unfolding wait_for_preview
stopping l path a rest o (failed message) = refl
stopping l path a rest o (erred job c s e f) = rw (e, f) refl
stopping l path a rest o (succeeded job e (inl f)) = rw (e, f) refl
stopping l path a rest o (succeeded job e (inr f)) = rw (e, f) refl

stopping_later :
    (l : Locale) (path : Text) (jobs : List Job) (a : JobAnswer) (rest : List JobAnswer)
    (o : Outcome)
    → Runs jobs
    → Ends l a o
    → wait_for_preview l path (map (λ j. inl j) jobs ++ a ∷ rest)
      ≡ record { details = details_of l jobs; outcome = o }
unfolding wait_for_preview
stopping_later l path [] a rest o h e = stopping l path a rest o e
stopping_later l path (job ∷ jobs) a rest o (r, h) e =
    rw (r, stopping_later l (job_path job) jobs a rest o h e) refl

waits_on :
    (l : Locale) (path : Text) (jobs : List Job)
    → Runs jobs
    → wait_for_preview l path (map (λ j. inl j) jobs)
      ≡ record { details = details_of l jobs; outcome = asking (path_after path jobs) }
unfolding wait_for_preview
waits_on l path [] h = refl
waits_on l path (job ∷ jobs) (r, h) = rw (r, waits_on l (job_path job) jobs h) refl

-- The wait for a preview ends at the first answer that fails or is a job that is over, whatever would come
-- after it: it throws the failure's message, or the job's error in the page's language where the job has one
-- that is not empty, and else returns the job's result. While the jobs run it goes on, it has shown for each
-- its phase and its two numbers, or that it is starting where the total is 0 or missing, and it asks for the
-- job that was answered last.
pub wait_for_preview-Ends :
    (l : Locale) (path : Text) (jobs : List Job) (a : JobAnswer) (rest : List JobAnswer)
    (o : Outcome)
    → Runs jobs
    → Ends l a o
    → (wait_for_preview l path (map (λ j. inl j) jobs ++ a ∷ rest)
        ≡ record { details = details_of l jobs; outcome = o })
      × (wait_for_preview l path (map (λ j. inl j) jobs)
          ≡ record { details = details_of l jobs; outcome = asking (path_after path jobs) })
wait_for_preview-Ends l path jobs a rest o h e =
    (stopping_later l path jobs a rest o h e, waits_on l path jobs h)
