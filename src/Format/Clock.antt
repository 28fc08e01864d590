-- ===== src/Format/Clock.antt =====
-- app.js, the countdown and the offset from UTC: reading back what is shown.
use moment_ferry.Common.{
  some, Bool, true, false, starts_with, drop, ℕ, ◌+◌, ◌*◌, ◌/◌, ◌%◌, [], ◌∷◌, ◌++◌, ◌==◌, Text,
  codes, number_at, number_at-decimal, number_at-pad2, pad2, arith, ◌≡◌, refl, Bool-cases, inl, inr,
  append-nil, ap, sym, ◌∙◌,
}
use moment_ferry.I18n.{Messages}
use moment_ferry.Format.{format_offset, clock_text}

number_at-pad2_end : (n : ℕ) → number_at 0 (pad2 n) ≡ (n, [])
number_at-pad2_end n = ap (number_at 0) (sym (append-nil (pad2 n))) ∙ number_at-pad2 n [] tt

-- Two or three numbers with one character between them, in base 60.
third : ℕ → Text → ℕ
third acc [] = acc
third acc (c ∷ s) = acc * 60 + (number_at 0 s).0

second : ℕ → Text → ℕ
unfolding third
second acc [] = acc
second acc (c ∷ s) = third (acc * 60 + (number_at 0 s).0) (number_at 0 s).1

pub read_clock : Text → ℕ
unfolding second
read_clock s = second (number_at 0 s).0 (number_at 0 s).1

-- The countdown shows the number of seconds that is left, as hours, minutes and seconds or, below an
-- hour, as minutes and seconds.
read_clock-clock_text : (seconds : ℕ) → read_clock (clock_text seconds) ≡ seconds
unfolding read_clock clock_text
read_clock-clock_text n = elim (Bool-cases (n / 3600 == 0)) [
  | inl short ↦
      rw
        (
          short,
          number_at-decimal (n % 3600 / 60) (b':' ∷ pad2 (n % 60)) refl,
          number_at-pad2_end (n % 60),
        )
        (ground arith)
  | inr long ↦
      rw
        (
          long,
          number_at-decimal (n / 3600) (b':' ∷ (pad2 (n % 3600 / 60) ++ (b':' ∷ pad2 (n % 60))))
              refl,
          number_at-pad2 (n % 3600 / 60) (b':' ∷ pad2 (n % 60)) refl,
          number_at-pad2_end (n % 60),
        )
        (omega arith)
]

-- The sign stands after `UTC`, and then hours and minutes.
pub read_offset : Text → Bool × ℕ
unfolding read_clock
read_offset s = (starts_with (drop 3 s) (codes "−"), read_clock (drop 4 s))

-- Reading the offset that is shown gives its sign and its minutes.
read_offset-format_offset :
    (messages : Messages) (negative : Bool) (absolute : ℕ)
    → read_offset (format_offset messages (some (negative, absolute))) ≡ (negative, absolute)
unfolding read_offset format_offset read_clock second third
read_offset-format_offset messages true absolute =
    rw
      (
        number_at-pad2 (absolute / 60) (b':' ∷ pad2 (absolute % 60)) refl,
        number_at-pad2_end (absolute % 60),
      )
      (ap (λ n. (true, n)) (omega arith))
read_offset-format_offset messages false absolute =
    rw
      (
        number_at-pad2 (absolute / 60) (b':' ∷ pad2 (absolute % 60)) refl,
        number_at-pad2_end (absolute % 60),
      )
      (ap (λ n. (false, n)) (omega arith))
