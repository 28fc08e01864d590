-- ===== src/Tasks/Invariant.antt =====
-- app.js, background tasks: what every history of the page keeps.
pub mod Lists
use moment_ferry.Common.{
  ℕ, zero, suc, ◌+◌, ◌≤◌, ◌<◌, List, [], ◌∷◌, Option, none, some, Bool, true, false, if◌then◌else◌,
  ◌==◌, Text, text_eq, filter, some_of, All, map, arith, ◌≡◌, ◌≢◌, ◌⊎◌, inl, inr, refl, sym, ap,
  ◌∙◌, Option-cases, Bool-cases, subst,
}
use moment_ferry.I18n.{Messages}
use moment_ferry.Tasks.{
  Task, Tasks, TaskState, running, is_running, get, set, update_task_clock, new_task, start,
  run_background_task, Outcome, resolved, rejected, finished, change, remove, settle, finish,
  clear_finished, initial, count,
}
use moment_ferry.Tasks.Steps.{Step, run, settles, finishes, clears, Reach, here, next}
use Lists.{
  IsUnique, keys, serials, running_serials, runs, set-IsUnique, set-All, set-running_serials,
  set-serials, set-some_of, change-keys, change-serials, change-running_serials, change-All,
  change-some_of, filter-IsUnique, filter-All, filter-filter, filter-some_of, count-above,
  remove-count, count-running_serials-le,
}

pub record Inv (s : Tasks) : Type 0 where
  pub unique_keys : IsUnique (keys s.entries)
  pub below : All (λ x. x.serial < s.next_serial) s.entries
  pub unique_serials : (n : ℕ) → count n (serials s.entries) ≤ 1
  pub in_flight : (n : ℕ) → count n s.pending ≡ count n (running_serials s.entries)
  pub ticking : some_of is_running s.entries ≡ true → s.clock ≡ true
  pub settled : s.clock ≡ true → (some_of is_running s.entries ≡ true) ⊎ (s.finishing ≢ [])

initial-Inv : Inv initial
initial-Inv = record {
  unique_keys = tt;
  below = tt;
  unique_serials = λ n. omega arith;
  in_flight = λ n. refl;
  ticking = λ e. cc;
  settled = λ e. cc;
}

-- After updateTaskClock the clock says whether a task is running.
update_task_clock_lem :
    (s : Tasks) → update_task_clock s ≡ record s { clock = some_of is_running s.entries }
unfolding update_task_clock
update_task_clock_lem s = ground arith

finish-Inv : (serial : ℕ) (s : Tasks) → Inv s → Inv (finish serial s)
unfolding finish
finish-Inv serial s v = rw (update_task_clock_lem _) record {
  unique_keys = v.unique_keys;
  below = v.below;
  unique_serials = v.unique_serials;
  in_flight = v.in_flight;
  ticking = λ e. e;
  settled = λ e. inl e;
}

clear_finished-Inv : (s : Tasks) → Inv s → Inv (clear_finished s)
unfolding clear_finished
clear_finished-Inv s v = record {
  unique_keys = filter-IsUnique s.entries v.unique_keys;
  below = filter-All s.next_serial s.entries v.below;
  unique_serials = λ n. omega (arith, count-running_serials-le n s.entries, v.unique_serials n);
  in_flight = λ n. rw (filter-filter s.entries) (v.in_flight n);
  ticking = λ e. v.ticking (sym (filter-some_of s.entries) ∙ e);
  settled = λ e. rw (filter-some_of s.entries) (v.settled e);
}

module _ (messages : Messages) where
  start-Inv :
      (key label view : Text) (now : ℕ) (s : Tasks)
      → Inv s
      → runs (get key s.entries) ≡ false
      → Inv (start messages key label view now s)
  unfolding start
  start-Inv key label view now s v h =
      let new : Task = new_task messages s.next_serial key label view now in
      rw (update_task_clock_lem _) record {
        unique_keys = set-IsUnique new s.entries v.unique_keys;
        below =
            set-All new (λ x. x.serial < suc s.next_serial) s.entries (omega arith)
              (below_suc s.entries v.below);
        unique_serials = λ n. ground (
          arith,
          set-serials new n s.entries,
          v.unique_serials n,
          count-above s.next_serial s.entries v.below,
        );
        in_flight = λ n. ground (arith, set-running_serials new n s.entries refl h, v.in_flight n);
        ticking = λ e. e;
        settled = λ e. inl e;
      }
    where
      below_suc :
          (es : List Task)
          → All (λ x. x.serial < s.next_serial) es
          → All (λ x. x.serial < suc s.next_serial) es
      below_suc [] a = tt
      below_suc (x ∷ es) (p, a) = (omega arith, below_suc es a)

  run-Inv :
      (key label view : Text) (now : ℕ) (s : Tasks)
      → Inv s
      → Inv (run_background_task messages key label view now s).0
  unfolding run_background_task
  run-Inv key label view now s v = elim (Option-cases (get key s.entries)) [
    | inl missing ↦
        rw (missing, run_background_task) (start-Inv key label view now s v (rw missing refl))
    | inr (x, found) ↦ elim (Bool-cases (is_running x)) [
      | inl busy ↦ rw (found, run_background_task) (rw busy v)
      | inr idle ↦
          rw (found, run_background_task)
            (rw idle (start-Inv key label view now s v (rw found idle)))
    ]
  ]

  finished-keeps :
      (outcome : Outcome) (now : ℕ) (x : Task)
      → ((finished messages outcome now x).key ≡ x.key)
        × ((finished messages outcome now x).serial ≡ x.serial)
        × (is_running (finished messages outcome now x) ≡ false)
  unfolding finished
  finished-keeps resolved now x = (refl, refl, refl)
  finished-keeps (rejected message) now x = (refl, refl, refl)

  settle-Inv :
      (serial : ℕ) (outcome : Outcome) (now : ℕ) (s : Tasks)
      → Inv s
      → 0 < count serial s.pending
      → Inv (settle messages serial outcome now s)
  unfolding settle
  settle-Inv serial outcome now s v h =
      let f : (Task → Task) = finished messages outcome now in
      let same_key = λ (x : Task). (finished-keeps outcome now x).0 in
      let same_serial = λ (x : Task). (finished-keeps outcome now x).1 in
      let ended = λ (x : Task). (finished-keeps outcome now x).2 in
      record {
        unique_keys = rw (change-keys serial f s.entries same_key) v.unique_keys;
        below = change-All serial f s.next_serial s.entries same_serial v.below;
        unique_serials =
            λ n. rw (change-serials serial f s.entries same_serial) (v.unique_serials n);
        in_flight = λ n. omega (
          arith,
          remove-count n serial s.pending h,
          v.in_flight n,
          change-running_serials serial f n s.entries ended (v.unique_serials serial)
              (rw (← v.in_flight serial) h),
        );
        ticking = λ e. v.ticking (change-some_of serial f s.entries ended e);
        settled = λ e. inr (λ q. cc);
      }

  step-Inv : {s u : Tasks} → Step messages s u → Inv s → Inv u
  step-Inv (run key label view now s) v = run-Inv key label view now s v
  step-Inv (settles serial outcome now s h) v = settle-Inv serial outcome now s v h
  step-Inv (finishes serial s h) v = finish-Inv serial s v
  step-Inv (clears s) v = clear_finished-Inv s v

  pub Reach-Inv : {s : Tasks} → Reach messages initial s → Inv s
  Reach-Inv here = initial-Inv
  Reach-Inv (next r st) = step-Inv st (Reach-Inv r)
