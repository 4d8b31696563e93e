-- ===== src/RateGate/Spacing.antt =====
-- What the gate guarantees over any sequence of calls by any workers.
use openontology.Prelude.{
  eq_string, eq_pair, eq_text, ℕ, ◌+◌, ◌*◌, ◌/◌, ◌≤◌, ◌<◌, ◌≢◌, List, [], ◌∷◌, arith,
}
use openontology.Clock.{second}
use openontology.RateGate.{
  RateGate, Source, million, effective, retune, apply_cooldown, start, pace,
}

div_bounds : (n d : ℕ) → 0 < d → (n / d * d ≤ n) × (n < (n / d + 1) * d)
div_bounds n d h = grind arith

effective-le : (quota margin : ℕ) → 0 < quota → margin ≤ million → effective quota margin ≤ quota
effective-le quota margin pos h =
    let scaled : quota * margin ≤ quota * million = grind arith in omega arith

-- The ceiling that the gate adopts is never above the quota that the licence bought, and sixty
-- seconds hold at most one interval more than that many calls (the interval is rounded down).
retune-le-quota :
    (quota_per_minute : ℕ) (source : Source) (g : RateGate)
    → 0 < quota_per_minute
    → g.margin ≤ million
    → effective quota_per_minute g.margin ≢ g.rpm
    → let g' = retune quota_per_minute source g in
      (g'.rpm ≤ quota_per_minute)
      × (0 < g'.rpm)
      × (g'.interval * g'.rpm ≤ 60 * second)
      × (60 * second < (g'.interval + 1) * g'.rpm)
unfolding retune
retune-le-quota quota_per_minute source g pos margin new = ground (
  arith,
  effective-le quota_per_minute g.margin pos margin,
  div_bounds (60 * second) (effective quota_per_minute g.margin),
)

-- One method call on the gate, at a time.
pub data Event : Type 0 where
  paced : Event
  cooled : (seconds : ℕ) → Event
  retuned : (quota_per_minute : ℕ) → Source → Event

abbrev pub step : Event → ℕ → RateGate → RateGate
step paced now g = (pace now g).1
step (cooled seconds) now g = apply_cooldown seconds now g
step (retuned quota_per_minute source) now g = retune quota_per_minute source g

abbrev pub run : List (Event × ℕ) → RateGate → RateGate
run [] g = g
run ((e, now) ∷ calls) g = run calls (step e now g)

step-next_at : (e : Event) (now : ℕ) (g : RateGate) → g.next_at ≤ (step e now g).next_at
unfolding pace apply_cooldown retune
step-next_at paced now g = ground arith
step-next_at (cooled seconds) now g = ground arith
step-next_at (retuned quota_per_minute source) now g = ground arith

run-next_at : (calls : List (Event × ℕ)) (g : RateGate) → g.next_at ≤ (run calls g).next_at
run-next_at [] g = omega arith
run-next_at ((e, now) ∷ calls) g =
    omega (arith, step-next_at e now g, run-next_at calls (step e now g))

-- A cooldown holds for every caller: whatever calls come after it, no later call starts before the
-- cooldown is over.
cooldown_holds :
    (seconds now : ℕ) (g : RateGate) (calls : List (Event × ℕ)) (later : ℕ)
    → 0 < seconds
    → now + seconds ≤ start (run calls (apply_cooldown seconds now g)) later
unfolding apply_cooldown
cooldown_holds seconds now g calls later pos =
    ground (arith, run-next_at calls (apply_cooldown seconds now g))

pace-next_at : (now : ℕ) (g : RateGate) → start g now + g.interval ≤ (pace now g).1.next_at
unfolding pace
pace-next_at now g = ground arith

-- Two calls of the interceptor start at least one interval apart, whatever other calls, cooldowns
-- and changes of the quota come between them.
pub pace-spacing :
    (now : ℕ) (g : RateGate) (calls : List (Event × ℕ)) (later : ℕ)
    → start g now + g.interval ≤ start (run calls (pace now g).1) later
pace-spacing now g calls later = omega (arith, pace-next_at now g, run-next_at calls (pace now g).1)
