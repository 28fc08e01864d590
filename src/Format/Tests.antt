-- ===== src/Format/Tests.antt =====
-- app.js, the formatters: runs at concrete inputs.
use moment_ferry.Common.{
  ℕ, ◌+◌, ◌*◌, ◌^◌, ◌≤◌, ◌<◌, suc, [], some, codes, decimal, pad2, ◌≡◌, refl, ◌⊎◌,
}
use moment_ferry.Format.{bytes, format_bytes, sized, duration_text, task_duration, clock_text}
use moment_ferry.Format.Bytes.{format_bytes-near}

one_and_a_half : format_bytes [] (some 1536) ≡ codes "1.5 KiB"
unfolding format_bytes sized decimal
one_and_a_half = refl

an_hour : clock_text 3725 ≡ codes "1:02:05"
unfolding clock_text pad2 decimal
an_hour = refl

format_bytes-near_example :
    ((1048575 < 1024) × (format_bytes [] (some 1048575) ≡ bytes 1048575))
    ⊎ ((i : ℕ) × (n : ℕ) × (format_bytes [] (some 1048575) ≡ sized n i)
        × (i ≤ 4)
        × (1024 ^ i ≤ 1048575)
        × ((i ≡ 4) ⊎ (1048575 < 1024 ^ suc i))
        × (2 * 1024 ^ i * n ≤ 20 * 1048575 + 1024 ^ i)
        × (20 * 1048575 < 2 * 1024 ^ i * n + 1024 ^ i))
format_bytes-near_example = format_bytes-near [] 1048575

-- A clock that was put back in between shows no time.
before_its_start : task_duration 5000 2000 ≡ codes "0s"
unfolding task_duration duration_text decimal
before_its_start = refl
