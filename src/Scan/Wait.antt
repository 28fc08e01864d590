-- ===== src/Scan/Wait.antt =====
-- app.js, monitorAutomationCycle: where the loop ends.
use moment_ferry.Common.{
  ℕ, ◌+◌, ◌-◌, ◌*◌, ◌≤◌, ◌<◌, List, [], ◌∷◌, none, some, ltb, Text, codes, length, arith, ◌≡◌, ◌⊎◌,
  inl, inr, refl, ◌∙◌, ap, sym, subst, Bool-cases,
}
use moment_ferry.I18n.{Messages, t}
use moment_ferry.Scan.{
  StatusReply, ScanResult, idle, polling, ScanState, wait_limit, is_complete, scan_result,
  scan_failed, answered, round_at, poll,
}

-- The rounds of the loop: when each begins, and what its request comes to.
abbrev pub Round : Type 0
Round = ℕ × (Text ⊎ StatusReply)

pub rounds : Messages → List Round → ScanState → ScanState
rounds messages [] s = s
rounds messages ((now, reply) ∷ rest) s = rounds messages rest (poll messages now reply s)

-- Rounds begin at `from` or later, 250 ms apart at least.
abbrev pub IsSpaced : ℕ → List Round → Type 0
IsSpaced from [] = Unit
IsSpaced from ((now, reply) ∷ rest) = (from ≤ now) × IsSpaced (now + 250) rest

-- The scan is over: with the result of a cycle that ended at or after the requested time, or with the
-- text of a failure.
pub record Ended (messages : Messages) (requested : ℕ) (s : ScanState) : Type 0 where
  pub at_rest : s.phase ≡ idle
  pub unrequested : s.scan_requested_at ≡ none
  pub outcome :
      ((r : ScanResult) × (s.manual_scan_result ≡ some r)
        × (requested ≤ r.completed_at)
        × (s.scan_schedule_error ≡ []))
      ⊎ ((message : Text) × (s.scan_schedule_error
            ≡ t messages
                (codes "Could not start scan · {{error}}")
                (some ((codes "error", message) ∷ []))))

rounds-idle :
    (messages : Messages) (xs : List Round) (s : ScanState)
    → s.phase ≡ idle
    → rounds messages xs s ≡ s
unfolding rounds poll round_at
rounds-idle messages [] s h = refl
rounds-idle messages ((now, reply) ∷ rest) s h =
    ap (λ p. rounds messages rest (round_at messages now reply p s)) h
    ∙ rounds-idle messages rest s h

rounds-Ended :
    (messages : Messages) (requested : ℕ) (xs : List Round) (s : ScanState)
    → Ended messages requested s
    → Ended messages requested (rounds messages xs s)
rounds-Ended messages requested xs s e = rw (rounds-idle messages xs s e.at_rest) e

scan_failed-Ended :
    (messages : Messages) (requested : ℕ) (message : Text) (s : ScanState)
    → Ended messages requested (scan_failed messages message s)
unfolding scan_failed
scan_failed-Ended messages requested message s = record {
  at_rest = refl;
  unrequested = refl;
  outcome = inr (message, refl);
}

answered-Ended :
    (messages : Messages) (requested : ℕ) (reply : Text ⊎ StatusReply) (s : ScanState)
    → Ended messages requested (answered messages requested reply s)
      ⊎ ((answered messages requested reply s).phase ≡ s.phase)
unfolding answered scan_result
answered-Ended messages requested (inl message) s =
    inl (scan_failed-Ended messages requested message s)
answered-Ended messages requested (inr r) s =
    elim (Bool-cases (is_complete requested r.automation)) [
      | inl complete ↦ inl (
          rw complete record {
            at_rest = refl;
            unrequested = refl;
            outcome = inl (scan_result r.automation, refl, ground arith, refl);
          })
      | inr waiting ↦ inr (rw waiting refl)
    ]

round_at-Ended :
    (messages : Messages) (now requested deadline : ℕ) (reply : Text ⊎ StatusReply) (s : ScanState)
    → Ended messages requested (round_at messages now reply (polling requested deadline) s)
      ⊎ ((now < deadline)
          × ((round_at messages now reply (polling requested deadline) s).phase ≡ s.phase))
unfolding round_at
round_at-Ended messages now requested deadline reply s = elim (Bool-cases (ltb now deadline)) [
  | inr late ↦ inl (
      rw late (
        scan_failed-Ended messages requested
          (t messages (codes "Timed out waiting for the cycle to finish") none) s))
  | inl early ↦ rw early (elim (answered-Ended messages requested reply s) [
    | inl ended ↦ inl ended
    | inr on ↦ inr (ground arith, on)
  ])
]

-- One round either ends the scan or, before the deadline, goes on with the same wait.
poll-Ended :
    (messages : Messages) (now requested deadline : ℕ) (reply : Text ⊎ StatusReply) (s : ScanState)
    → s.phase ≡ polling requested deadline
    → Ended messages requested (poll messages now reply s)
      ⊎ ((now < deadline) × ((poll messages now reply s).phase ≡ polling requested deadline))
unfolding poll
poll-Ended messages now requested deadline reply s h =
    let u : round_at messages now reply (polling requested deadline) s
        ≡ round_at messages now reply s.phase s =
      ap (λ p. round_at messages now reply p s) (sym h) in
    elim (round_at-Ended messages now requested deadline reply s) [
      | inl ended ↦ inl (subst (Ended messages requested) u ended)
      | inr (early, on) ↦ inr (early, ap (λ w. w.phase) (sym u) ∙ on ∙ h)
    ]

wait :
    (messages : Messages) (requested deadline from k : ℕ) (xs : List Round) (s : ScanState)
    → s.phase ≡ polling requested deadline
    → IsSpaced from xs
    → deadline ≤ from + 250 * k
    → k < length xs
    → Ended messages requested (rounds messages xs s)
unfolding rounds
wait messages requested deadline from k [] s h spaced late long = absurd (omega (arith, long))
wait messages requested deadline from k ((now, reply) ∷ rest) s h (later, spaced) late long =
    elim (poll-Ended messages now requested deadline reply s h) [
      | inl ended ↦ rounds-Ended messages requested rest _ ended
      | inr (early, on) ↦
          wait messages requested deadline (now + 250) (k - 1) rest (poll messages now reply s) on
            spaced (omega arith) (omega arith)
    ]

-- A wait that began at `now` is over after 7201 rounds that are 250 ms apart at least, whatever the
-- requests come to: the page waits for no scan and has no requested time any more, and there is the
-- result of a cycle that ended at or after the requested time, or the text of a failure.
pub rounds-ends :
    (messages : Messages) (requested now : ℕ) (xs : List Round) (s : ScanState)
    → s.phase ≡ polling requested (now + wait_limit)
    → IsSpaced now xs
    → 7200 < length xs
    → Ended messages requested (rounds messages xs s)
rounds-ends messages requested now xs s h spaced long =
    wait messages requested (now + wait_limit) now 7200 xs s h spaced (omega arith) long
