-- ===== src/Updates/Wait.antt =====
-- settings.js, waitForUpdatedMomentFerry and the installation: where the wait ends, and what success
-- means.
use moment_ferry.Common.{
  ℕ, ◌+◌, ◌-◌, ◌*◌, ◌≤◌, ◌<◌, List, [], ◌∷◌, Option, none, some, true, false, text_eq, text_eq_iff,
  ltb, Text, length, arith, ◌≡◌, inl, inr, Bool-cases,
}
use moment_ferry.I18n.{Messages}
use moment_ferry.Updates.{
  UpdateStatus, is_updated, Round, Waiting, pending, timed_out, returned, answered,
  wait_for_updated, Posted, accepted, lost, refused, Installed, waiting, updated, failed,
  install_outcome, timeout_ms, install_image_update,
}

-- Rounds begin at `from` or later, 2 s apart at least.
abbrev pub IsSpaced : ℕ → List Round → Type 0
IsSpaced from [] = Unit
IsSpaced from ((now, reply) ∷ rest) = (from ≤ now) × IsSpaced (now + 2000) rest

-- The status names the version as the one that runs, and offers no other.
abbrev pub Names : Text → UpdateStatus → Type 0
Names expected s = (s.running_version ≡ expected) × (s.update_available ≡ false)

-- The wait gives up, or returns a status of the expected version without a further update.
abbrev pub IsOver : Text → Waiting → Type 0
IsOver expected pending = ⊥
IsOver expected timed_out = Unit
IsOver expected (returned s) = Names expected s

answered-IsOver :
    (expected : Text) (reply : Option UpdateStatus) (more : Waiting)
    → IsOver expected more
    → IsOver expected (answered expected reply more)
answered-IsOver expected none more h = h
answered-IsOver expected (some s) more h = elim (Bool-cases (is_updated expected s)) [
  | inl e ↦
      let same : text_eq s.running_version expected ≡ true = ground arith in
      let none_left : s.update_available ≡ false = ground arith in
      rw e ((text_eq_iff s.running_version expected).0 same, none_left)
  | inr e ↦ rw e h
]

wait-IsOver :
    (expected : Text) (deadline from k : ℕ) (rounds : List Round)
    → IsSpaced from rounds
    → deadline ≤ from + 2000 * k
    → k < length rounds
    → IsOver expected (wait_for_updated expected deadline rounds)
unfolding wait_for_updated
wait-IsOver expected deadline from k [] spaced late long = absurd (omega (arith, long))
wait-IsOver expected deadline from k ((now, reply) ∷ rest) (later, spaced) late long =
    elim (Bool-cases (ltb now deadline)) [
      | inr e ↦ rw e tt
      | inl e ↦
          let early : now < deadline = ground arith in
          rw e (
            answered-IsOver expected reply (wait_for_updated expected deadline rest) (
              wait-IsOver expected deadline (now + 2000) (k - 1) rest spaced (omega arith)
                (omega arith)))
    ]

-- The installation is over: it failed with a message, or the page reloads on the expected version.
abbrev pub IsDone : Text → Installed → Type 0
IsDone expected waiting = ⊥
IsDone expected (updated s) = Names expected s
IsDone expected (failed message) = Unit

outcome-IsDone :
    (messages : Messages) (expected : Text) (w : Waiting)
    → IsOver expected w
    → IsDone expected (install_outcome messages expected w)
outcome-IsDone messages expected pending h = h
outcome-IsDone messages expected timed_out h = tt
outcome-IsDone messages expected (returned s) h = h

-- An installation is over after 91 rounds of its wait, 2 s apart at least, whatever became of the POST
-- and of the requests of the rounds; and it is taken for a success only with a status that names the
-- expected version as the running one and offers no further update.
pub install_image_update-IsDone :
    (messages : Messages) (expected : Text) (posted : Posted) (now : ℕ) (rounds : List Round)
    → IsSpaced now rounds
    → 90 < length rounds
    → IsDone expected (install_image_update messages expected posted now rounds)
unfolding install_image_update
install_image_update-IsDone messages expected (refused message) now rounds spaced long = tt
install_image_update-IsDone messages expected accepted now rounds spaced long =
    outcome-IsDone messages expected (wait_for_updated expected (now + timeout_ms) rounds)
      (wait-IsOver expected (now + timeout_ms) now 90 rounds spaced (omega arith) long)
install_image_update-IsDone messages expected lost now rounds spaced long =
    outcome-IsDone messages expected (wait_for_updated expected (now + timeout_ms) rounds)
      (wait-IsOver expected (now + timeout_ms) now 90 rounds spaced (omega arith) long)
