-- ===== src/Clock.antt =====
-- Durations and random draws. A duration that the source gives as a float of seconds is a number
-- of microseconds here, rounded down; `random.random()` is a multiple of 2^-53, given by its
-- numerator.
use openontology.Prelude.{eq_string, eq_pair, eq_text, ℕ, ◌*◌, ◌/◌, ◌^◌, ◌≤◌, ◌<◌, arith}

abbrev pub second : ℕ
second = 1000000

abbrev pub resolution : ℕ
resolution = 2 ^ 53

-- `random.random() * span`
pub scale_random : ℕ → ℕ → ℕ
scale_random draw span = draw * span / resolution

-- A draw below 1 scales a span to at most that span.
pub scale_random-le : (draw span : ℕ) → draw < resolution → scale_random draw span ≤ span
unfolding scale_random
scale_random-le draw span h =
    let below : draw * span ≤ resolution * span = grind arith in omega arith
