-- ===== src/Worker/Backpressure.antt =====
-- The pause of `CommandWorker._rewind`, and what a run of transient failures does.
use openontology.Prelude.{eq_string, eq_pair, eq_text, ℕ, ◌+◌, ◌-◌, ◌/◌, ◌^◌, ◌≤◌, ◌<◌, min, arith}
use openontology.Clock.{resolution, scale_random-le}
use native.Mathlib.Nat.{pow-le-pow_right}
use openontology.Settings.{Settings}
use openontology.Worker.Loop.{rewind_ceiling, rewind_delay}

min_mono : (a m n : ℕ) → m ≤ n → min a m ≤ min a n
min_mono a m n h = omega arith

-- The pause is at least half of the ceiling (rounded down) and never above the ceiling, and so
-- never above `transient_backoff_max_seconds`, however long the streak; and the ceiling does not
-- fall while the streak grows.
rewind_delay-between :
    (settings : Settings) (streak draw : ℕ)
    → draw < resolution
    → (rewind_ceiling settings streak / 2 ≤ rewind_delay settings streak draw)
      × (rewind_delay settings streak draw ≤ rewind_ceiling settings streak)
      × (rewind_ceiling settings streak ≤ settings.transient_backoff_max_seconds)
      × (rewind_ceiling settings streak ≤ rewind_ceiling settings (streak + 1))
unfolding rewind_delay rewind_ceiling
rewind_delay-between settings streak draw h =
    let low = scale_random-le draw (rewind_ceiling settings streak / 2) h in
    let powers : 2 ^ min (streak - 1) 10 ≤ 2 ^ min (streak + 1 - 1) 10 =
      pow-le-pow_right (omega arith) (omega arith) in
    (
      omega arith,
      omega (arith, low),
      omega arith,
      min_mono settings.transient_backoff_max_seconds _ _ (grind arith),
    )
