-- ===== src/Markup/Meter.antt =====
-- app.js, the meter of renderStorage: how wide its two parts are, in hundredths of a percent.
use moment_ferry.Common.{
  ℕ, ◌+◌, ◌*◌, ◌/◌, ◌<◌, ◌≤◌, Option, none, some, Bool, true, false, ◌==◌, ltb, arith, inl, inr,
  Bool-cases,
}
use native.Mathlib.Nat.{mul-le-mul_left}
use moment_ferry.Format.Bytes.{div_bounds}
use moment_ferry.Markup.Storage.{meter}

-- The reserve is at least 1.5 % wide, and the two parts fill the meter up to a hundredth.
abbrev pub Fills : Option (ℕ × ℕ) → Type 0
Fills none = ⊥
Fills (some (reserve, used)) = (150 ≤ reserve) × (10000 ≤ reserve + used) × (reserve + used ≤ 10001)

-- A product that is below one with a larger factor has the smaller factor.
at_most : (d s c : ℕ) → d * s < d * (c + 1) → s ≤ c
at_most d s c h = elim (Bool-cases (ltb c s)) [
  | inl g ↦ let above : c + 1 ≤ s = ground arith in absurd (omega (arith, mul-le-mul_left d above))
  | inr g ↦ ground arith
]

-- The two rounded quotients by twice the sum.
parts-sum :
    (free reserve q u : ℕ)
    → 2 * (free + reserve) * q ≤ 20000 * reserve + (free + reserve)
    → 20000 * reserve + (free + reserve) < 2 * (free + reserve) * q + 2 * (free + reserve)
    → 2 * (free + reserve) * u ≤ 20000 * free + (free + reserve)
    → 20000 * free + (free + reserve) < 2 * (free + reserve) * u + 2 * (free + reserve)
    → 0 < free + reserve
    → (10000 ≤ q + u) × (q + u ≤ 10001)
parts-sum f r q u a b c d pos = (
  at_most (2 * (f + r)) 10000 (q + u) (omega arith),
  at_most (2 * (f + r)) (q + u) 10001 (omega arith),
)

reserve-floor :
    (free reserve q : ℕ)
    → 20000 * reserve + (free + reserve) < 2 * (free + reserve) * q + 2 * (free + reserve)
    → 3 * (free + reserve) ≤ 200 * reserve
    → 150 ≤ q
reserve-floor f r q a h = at_most (2 * (f + r)) 150 q (omega arith)

rounded-Fills :
    (free reserve : ℕ)
    → 0 < free + reserve
    → 3 * (free + reserve) ≤ 200 * reserve
    → Fills (
        some (
          (20000 * reserve + (free + reserve)) / (2 * (free + reserve)),
          (20000 * free + (free + reserve)) / (2 * (free + reserve)),
        ))
rounded-Fills f r pos h =
    let wide : 0 < 2 * (f + r) = omega arith in
    let (a, b) = div_bounds (20000 * r + (f + r)) (2 * (f + r)) wide in
    let (c, e) = div_bounds (20000 * f + (f + r)) (2 * (f + r)) wide in
    let (least, most) = parts-sum f r _ _ a b c e pos in (reserve-floor f r _ b h, least, most)

-- Where there is space, free or reserved, the meter of a destination has two widths: the reserve takes
-- at least 1.5 %, and together they fill it, up to a hundredth of a percent.
meter-Fills :
    (below : Bool) (free reserve : ℕ) → 0 < free + reserve → Fills (meter below free reserve)
meter-Fills true free reserve pos = (omega arith, omega arith, omega arith)
meter-Fills false free reserve pos = elim (Bool-cases (free + reserve == 0)) [
  | inl e ↦ absurd (ground arith)
  | inr e ↦ elim (Bool-cases (ltb (200 * reserve) (3 * (free + reserve)))) [
    | inl k ↦ rw (e, k) (omega arith, omega arith, omega arith)
    | inr k ↦ rw (e, k) (rounded-Fills free reserve pos (ground arith))
  ]
]
