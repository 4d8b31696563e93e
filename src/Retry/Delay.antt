-- ===== src/Retry/Delay.antt =====
-- How long `retry_async` waits between two attempts.
use openontology.Prelude.{
  eq_string, eq_pair, eq_text, ℕ, ◌+◌, ◌/◌, ◌≤◌, ◌<◌, min, ◌≡◌, none, some, arith,
}
use openontology.Clock.{second, resolution, scale_random-le}
use openontology.Retry.{Backoff, delay, ceiling}

-- Without a hint the wait lies between half the ceiling and the ceiling, and so never passes
-- `max_seconds`.
delay-between :
    (b : Backoff) (attempt draw : ℕ)
    → draw < resolution
    → (ceiling b attempt / 2 ≤ delay b none attempt draw)
      × (delay b none attempt draw ≤ ceiling b attempt)
      × (delay b none attempt draw ≤ b.max_seconds)
unfolding delay
delay-between b attempt draw h = omega (arith, scale_random-le draw (ceiling b attempt / 2) h)

-- With a hint the wait is never below the capped hint, and passes it by a second at most.
delay_hinted :
    (b : Backoff) (hinted cap attempt draw : ℕ)
    → draw < resolution
    → b.retry_after_cap ≡ some cap
    → (min hinted cap ≤ delay b (some hinted) attempt draw)
      × (delay b (some hinted) attempt draw ≤ cap + second)
unfolding delay
delay_hinted b hinted cap attempt draw h e =
    rw (e, delay) (omega (arith, scale_random-le draw (min second (min hinted cap / 10)) h))
