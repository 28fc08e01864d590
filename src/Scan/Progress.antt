-- ===== src/Scan/Progress.antt =====
-- app.js, triggerScanNow: how many scans are under way.
use moment_ferry.Common.{
  ℕ, List, [], ◌∷◌, Bool, true, false, if◌then◌else◌, Text, is_some, arith, ◌≡◌, ◌⊎◌, inl, inr,
  refl,
}
use moment_ferry.I18n.{Messages}
use moment_ferry.Scan.{
  Automation, StatusReply, Phase, idle, posting, polling, ScanState, trigger_scan_now, scan_failed,
  posted, answered, round_at, poll, load_automation_status,
}

-- What happens to the page: a click, the answer to the POST, a round of the loop, a status that was
-- loaded beside it.
pub data ScanEvent : Type 0 where
  click : ℕ → ScanEvent
  post_answer : Text ⊎ ℕ → ℕ → ScanEvent
  round : ℕ → Text ⊎ StatusReply → ScanEvent
  refresh : Automation → ScanEvent

abbrev is_posting : Phase → Bool
is_posting posting = true
is_posting _ = false

abbrev pub is_busy : Phase → Bool
is_busy idle = false
is_busy _ = true

-- An answer comes only to a POST that is on its way.
pub step : Messages → ScanEvent → ScanState → ScanState
step messages (click now) s = trigger_scan_now now s
step messages (post_answer reply now) s =
    if is_posting s.phase then posted messages reply now s else s
step messages (round now reply) s = poll messages now reply s
step messages (refresh a) s = load_automation_status a s

pub run : Messages → List ScanEvent → ScanState → ScanState
unfolding step
run messages [] s = s
run messages (e ∷ es) s = run messages es (step messages e s)

-- A time of a request is kept just while a scan is under way.
abbrev pub IsMatched : ScanState → Type 0
IsMatched s = is_some s.scan_requested_at ≡ is_busy s.phase

answered-IsMatched :
    (messages : Messages) (requested : ℕ) (reply : Text ⊎ StatusReply) (s : ScanState)
    → IsMatched s
    → IsMatched (answered messages requested reply s)
unfolding answered scan_failed
answered-IsMatched messages requested (inl message) s h = refl
answered-IsMatched messages requested (inr r) s h = ground arith

round_at-IsMatched :
    (messages : Messages) (now : ℕ) (reply : Text ⊎ StatusReply) (p : Phase) (s : ScanState)
    → IsMatched s
    → IsMatched (round_at messages now reply p s)
unfolding round_at scan_failed
round_at-IsMatched messages now reply idle s h = h
round_at-IsMatched messages now reply posting s h = h
round_at-IsMatched messages now reply (polling requested deadline) s h =
    ground (arith, answered-IsMatched messages requested reply s h)

poll-IsMatched :
    (messages : Messages) (now : ℕ) (reply : Text ⊎ StatusReply) (s : ScanState)
    → IsMatched s
    → IsMatched (poll messages now reply s)
unfolding poll
poll-IsMatched messages now reply s h = round_at-IsMatched messages now reply s.phase s h

step-IsMatched :
    (messages : Messages) (e : ScanEvent) (s : ScanState)
    → IsMatched s
    → IsMatched (step messages e s)
unfolding step trigger_scan_now posted scan_failed load_automation_status
step-IsMatched messages (click now) s h = ground arith
step-IsMatched messages (post_answer (inl m) now) s h = ground arith
step-IsMatched messages (post_answer (inr r) now) s h = ground arith
step-IsMatched messages (round now reply) s h = poll-IsMatched messages now reply s h
step-IsMatched messages (refresh a) s h = h

run-IsMatched :
    (messages : Messages) (es : List ScanEvent) (s : ScanState)
    → IsMatched s
    → IsMatched (run messages es s)
unfolding run
run-IsMatched messages [] s h = h
run-IsMatched messages (e ∷ es) s h =
    run-IsMatched messages es (step messages e s) (step-IsMatched messages e s h)

-- After any events on a page that started at rest, a scan is under way just while the time of its
-- request is kept; then a further click changes nothing, so no second scan is posted.
pub run-one_scan :
    (messages : Messages) (es : List ScanEvent) (s : ScanState)
    → IsMatched s
    → IsMatched (run messages es s)
      × (is_busy (run messages es s).phase ≡ true
          → (now : ℕ) → trigger_scan_now now (run messages es s) ≡ run messages es s)
unfolding trigger_scan_now
run-one_scan messages es s h =
    let m : IsMatched (run messages es s) = run-IsMatched messages es s h in
    (m, λ busy now. ground arith)
