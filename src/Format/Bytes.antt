-- ===== src/Format/Bytes.antt =====
-- app.js, formatBytes: the unit that is chosen, and how near the shown number is.
use moment_ferry.Common.{
  ℕ, zero, suc, ◌+◌, ◌*◌, ◌/◌, ◌^◌, ◌≤◌, ◌<◌, some, ◌==◌, arith, ◌≡◌, ◌⊎◌, inl, inr, refl, false,
}
use native.Mathlib.Nat.{div-add-mod, mod-lt, pow-zero, pow-suc}
use moment_ferry.I18n.{Messages}
use moment_ferry.Format.{unit_index, tenths, sized, bytes, format_bytes}

abbrev Chosen : ℕ → ℕ → ℕ → ℕ → Type 0
Chosen left v from i =
    (from ≤ i)
    × (i ≤ from + left)
    × ((i ≡ from) ⊎ (1024 ^ i ≤ v))
    × ((i ≡ from + left) ⊎ (v < 1024 ^ suc i))

unit_index-Chosen : (left v from : ℕ) → Chosen left v from (unit_index left v from)
unfolding unit_index
unit_index-Chosen zero v from = ground arith
unit_index-Chosen (suc left) v from = ground (arith, unit_index-Chosen left v (suc from))

pub div_bounds : (a d : ℕ) → 0 < d → (d * (a / d) ≤ a) × (a < d * (a / d) + d)
div_bounds a d h = ground (arith, div-add-mod a d, mod-lt a h)

pow-pos : (i : ℕ) → 0 < 1024 ^ i
pow-pos zero = rw (pow-zero 1024) (omega arith)
pow-pos (suc i) = rw (pow-suc 1024 i) (omega (arith, pow-pos i))

tenths-near :
    (v i : ℕ)
    → (2 * 1024 ^ i * tenths v i ≤ 20 * v + 1024 ^ i)
      × (20 * v < 2 * 1024 ^ i * tenths v i + 1024 ^ i)
unfolding tenths
tenths-near v i =
    omega (arith, div_bounds (20 * v + 1024 ^ i) (2 * 1024 ^ i) (omega (arith, pow-pos i)))

suc_ne : (i : ℕ) → (suc i == 0) ≡ false
suc_ne i = ground arith

-- A size of less than 1024 bytes is shown in bytes, as it is. Any other is shown as a number of tenths
-- of the largest of the units up to TiB that is not larger than it; the shown number is at most half a
-- tenth above the exact one, and less than half a tenth below.
pub format_bytes-near :
    (messages : Messages) (v : ℕ)
    → ((v < 1024) × (format_bytes messages (some v) ≡ bytes v))
      ⊎ ((i : ℕ) × (n : ℕ) × (format_bytes messages (some v) ≡ sized n i)
          × (i ≤ 4)
          × (1024 ^ i ≤ v)
          × ((i ≡ 4) ⊎ (v < 1024 ^ suc i))
          × (2 * 1024 ^ i * n ≤ 20 * v + 1024 ^ i)
          × (20 * v < 2 * 1024 ^ i * n + 1024 ^ i))
unfolding format_bytes
format_bytes-near messages v = near (unit_index 4 v 0) refl (unit_index-Chosen 4 v 0)
  where
    near :
        (i : ℕ)
        → unit_index 4 v 0 ≡ i
        → Chosen 4 v 0 i
        → ((v < 1024) × (format_bytes messages (some v) ≡ bytes v))
          ⊎ ((i : ℕ) × (n : ℕ) × (format_bytes messages (some v) ≡ sized n i)
              × (i ≤ 4)
              × (1024 ^ i ≤ v)
              × ((i ≡ 4) ⊎ (v < 1024 ^ suc i))
              × (2 * 1024 ^ i * n ≤ 20 * v + 1024 ^ i)
              × (20 * v < 2 * 1024 ^ i * n + 1024 ^ i))
    near zero e (a, b, c, d) = inl (ground arith, rw (e, format_bytes) refl)
    near (suc i) e (a, b, c, d) = inr (
      suc i,
      tenths v (suc i),
      rw (e, format_bytes) (rw (suc_ne i) refl),
      omega arith,
      ground arith,
      ground arith,
      (tenths-near v (suc i)).0,
      (tenths-near v (suc i)).1,
    )
