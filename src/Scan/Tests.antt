-- ===== src/Scan/Tests.antt =====
-- app.js, the scan: runs at concrete inputs.
use moment_ferry.Common.{
  ℕ, zero, suc, ◌+◌, ◌<◌, List, [], ◌∷◌, none, true, length, arith, ◌≡◌, inr, refl,
}
use moment_ferry.Scan.{StatusReply, ScanState, idle, polling, trigger_scan_now, percent, wait_limit}
use moment_ferry.Scan.Wait.{Round, rounds, IsSpaced, Ended, rounds-ends}
use moment_ferry.Scan.Progress.{click, post_answer, run, is_busy, IsMatched, run-one_scan}

abbrev resting : ScanState
resting = record {
  automation_info = none;
  automation_enabled = true;
  reconciliation_interval_seconds = 300;
  scan_requested_at = none;
  scan_schedule_error = [];
  manual_scan_result = none;
  phase = idle;
}

two_thirds : percent 2 3 ≡ 67
unfolding percent
two_thirds = refl

-- A click, its answer, and a second click.
run-one_scan_example :
    IsMatched (run [] (click 5 ∷ post_answer (inr 6) 7 ∷ []) resting)
    × (is_busy (run [] (click 5 ∷ post_answer (inr 6) 7 ∷ []) resting).phase ≡ true
        → (now : ℕ)
        → trigger_scan_now now (run [] (click 5 ∷ post_answer (inr 6) 7 ∷ []) resting)
          ≡ run [] (click 5 ∷ post_answer (inr 6) 7 ∷ []) resting)
run-one_scan_example = run-one_scan [] (click 5 ∷ post_answer (inr 6) 7 ∷ []) resting refl

abbrev running : StatusReply
running = record {
  automation = record {
    cycle_running = true;
    last_cycle_completed_at = none;
    last_matched = 0;
    last_would_move = 0;
    last_executed = 0;
    last_errors = 0;
    current_phase = none;
    current_processed = 0;
    current_total = 0;
  };
  automation_enabled = true;
  reconciliation_interval_seconds = 300;
}

-- A cycle that never ends, asked about every 250 ms.
asked : ℕ → ℕ → List Round
asked from zero = []
asked from (suc n) = (from, inr running) ∷ asked (from + 250) n

asked-IsSpaced : (from n : ℕ) → IsSpaced from (asked from n)
unfolding asked
asked-IsSpaced from zero = tt
asked-IsSpaced from (suc n) = (omega arith, asked-IsSpaced (from + 250) n)

length-asked : (from n : ℕ) → length (asked from n) ≡ n
unfolding asked
length-asked from zero = refl
length-asked from (suc n) = omega (arith, length-asked (from + 250) n)

enough : 7200 < length (asked 1000 7201)
enough = omega (arith, length-asked 1000 7201)

rounds-ends_example :
    Ended [] 900
      (rounds [] (asked 1000 7201) (record resting { phase = polling 900 (1000 + wait_limit) }))
rounds-ends_example =
    rounds-ends [] 900 1000 (asked 1000 7201)
      (record resting { phase = polling 900 (1000 + wait_limit) }) refl (asked-IsSpaced 1000 7201)
      enough
