-- ===== src/Analysis/Routing/Agreement.antt =====
-- app.js, file analysis, against the service: the answer of the dialog and what the worker acts on.
use moment_ferry.Common.{
  ◌/◌, ◌%◌, ◌≤◌, ◌<◌, leb, leb_iff, ℕ, List, [], ◌∷◌, Option, none, some, Bool, ◌&&◌, not,
  if◌then◌else◌, Text, text_eq, filter, is_empty, All, arith, ◌≡◌, ◌≢◌, refl, Bool-cases, inl, inr,
}
use moment_ferry.Model.{Share, MediaEvent, MediaFile}
use moment_ferry.Analysis.{Console, millis, is_after, event_checks, event_matches}
use moment_ferry.Analysis.Routing.{is_open_at, is_matchable, contributes}

-- No two events share an id.
abbrev pub Fresh : Text → List MediaEvent → Type 0
Fresh id = All λ e. e.id ≢ id

abbrev pub IsDistinct : List MediaEvent → Type 0
IsDistinct [] = Unit
IsDistinct (e ∷ es) = Fresh e.id es × IsDistinct es

-- An instant without a part below a millisecond.
abbrev pub IsWhole : ℕ → Type 0
IsWhole ticks = ticks % 10000 ≡ 0

abbrev pub StartsWhole : List MediaEvent → Type 0
StartsWhole = All λ e. IsWhole e.start_at

leb-millis : (a b : ℕ) → IsWhole a → leb (millis a) (millis b) ≡ leb a b
leb-millis a b h = elim (Bool-cases (leb a b)) [
  | inl e ↦
      let n : a ≤ b = (leb_iff a b).0 e in rw e ((leb_iff (a / 10000) (b / 10000)).1 (omega arith))
  | inr e ↦ let n : b < a = ground arith in rw e (ground (arith, millis-lt a b h n))
]
  where
    millis-lt : (m k : ℕ) → IsWhole m → k < m → k / 10000 < m / 10000
    millis-lt m k w l = omega (arith, w, l)

is_open_at-not-is_after :
    (captured : ℕ) (end : Option ℕ)
    → IsWhole captured
    → not (is_after captured end) ≡ is_open_at captured end
unfolding is_open_at
is_open_at-not-is_after captured none h = refl
is_open_at-not-is_after captured (some end) h = ground (arith, leb-millis captured end h)

-- The first three checks are the condition of the query and the membership of the group.
pub event_matches_lem :
    (c : Console) (e : MediaEvent) (f : MediaFile) (s : Share)
    → IsWhole f.captured_at
    → IsWhole e.start_at
    → event_matches c e f s ≡ (is_matchable f.captured_at e && contributes c.groups s.id e)
unfolding event_matches event_checks is_matchable contributes
event_matches_lem c e f s w v =
    ground (
      arith,
      is_open_at-not-is_after f.captured_at e.end_at w,
      leb-millis e.start_at f.captured_at v,
    )

-- The one element of a list.
sole {ℓ} : {A : Type ℓ} → List A → Option A
sole [] = none
sole (x ∷ xs) = if is_empty xs then some x else none

module _ (p : MediaEvent → Bool) where
  others : Text → List MediaEvent → List MediaEvent
  others id xs = filter (λ x. not (text_eq x.id id) && p x) xs

module _ (c : Console) (f : MediaFile) (s : Share) (w : IsWhole f.captured_at)
    (v : StartsWhole c.events) where
  -- What the service asks of an event before it looks at the destination.
  abbrev matching : MediaEvent → Bool
  matching e = is_matchable f.captured_at e && contributes c.groups s.id e
