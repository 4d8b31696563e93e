-- ===== src/RateGate.antt =====
-- `RateGate` of services/command-worker/command_worker.py. `_pace` runs under the gate's lock and
-- the two other methods without an `await`, so a run of all the workers is a sequence of calls.
-- Times are microseconds of `time.monotonic()`; `margin` is in millionths.
pub mod Spacing
use openontology.Prelude.{
  ltb, leb, ◌==◌, if◌then◌else◌, ltb→lt, lt→ltb, leb→le, le→leb, ==_iff, Bool-cases, Option-cases,
  some_inj, length, take, is_empty, any, all, keep, length-append, length-take, length-keep-le, All,
  All-append, All-take, Result, ok, raise, ◌>>=◌, Result-cases, Eq, eq_string, eq_pair,
  string_beq_iff, pair_beq_iff, pair_beq, Text, codes, text_eq, text_eq_sound, text_eq_complete,
  text_eq_refl, text_eq_iff, eq_text, is_space, lstrip, rstrip_onto, rstrip, upper_char, find,
  member, find-All, lower_char, has_prefix, onto_first, split_on, strip, upper, lower, replace_char,
  rstrip_char, ℕ, zero, suc, ◌+◌, ◌-◌, ◌*◌, ◌/◌, ◌%◌, ◌^◌, ◌≤◌, ◌<◌, min, max, String, ◌≡◌, refl,
  sym, ap, ◌∙◌, subst, ◌≢◌, ◌↔◌, ◌⊎◌, inl, inr, Bool, true, false, not, ◌&&◌, ◌||◌, Option, none,
  some, List, [], ◌∷◌, ◌++◌, map, arith, string_eq,
}
use openontology.Clock.{second}

pub data Source : Type 0 where
  unlimited config preflight x_ratelimit_limit : Source

pub record RateGate : Type 0 where
  pub margin : ℕ
  pub max_concurrency : ℕ
  pub rpm : ℕ
  pub interval : ℕ
  pub next_at : ℕ
  pub source : Source
  pub waits : ℕ
  pub wait_seconds : ℕ
  pub cooldowns : ℕ
  pub cooldown_seconds : ℕ

abbrev pub million : ℕ
million = 1000000

-- `max(1, int(quota_per_minute * self._margin))`
abbrev pub effective : ℕ → ℕ → ℕ
effective quota_per_minute margin = max 1 (quota_per_minute * margin / million)

-- `RateGate.retune`
unfoldable pub retune : ℕ → Source → RateGate → RateGate
retune quota_per_minute source g =
    if quota_per_minute == 0
    then g
    else if effective quota_per_minute g.margin == g.rpm
    then g
    else record g {
      rpm = effective quota_per_minute g.margin;
      interval = 60 * second / effective quota_per_minute g.margin;
      source = source;
    }

-- `RateGate.__init__`
unfoldable pub init : (rpm max_concurrency margin : ℕ) → RateGate
unfolding retune
init rpm max_concurrency margin =
    let g : RateGate = record {
      margin = margin;
      max_concurrency = max_concurrency;
      rpm = 0;
      interval = 0;
      next_at = 0;
      source = unlimited;
      waits = 0;
      wait_seconds = 0;
      cooldowns = 0;
      cooldown_seconds = 0;
    } in
    if ltb 0 rpm then retune rpm config g else g

-- `RateGate.apply_cooldown`, at the time `now`
unfoldable pub apply_cooldown : (seconds now : ℕ) → RateGate → RateGate
apply_cooldown seconds now g = if seconds == 0 then g else record g {
  next_at = max g.next_at (now + seconds);
  cooldowns = g.cooldowns + 1;
  cooldown_seconds = g.cooldown_seconds + seconds;
}

-- when the call that arrives at `now` may start
abbrev pub start : RateGate → ℕ → ℕ
start g now = max now g.next_at

-- the counters, once the lock is released
abbrev pub note_wait : ℕ → RateGate → RateGate
note_wait wait g =
    if wait == 0 then g else record g { waits = g.waits + 1; wait_seconds = g.wait_seconds + wait }

-- `RateGate._pace`: how long the caller sleeps, and the new gate.
unfoldable pub pace : ℕ → RateGate → ℕ × RateGate
pace now g =
    let wait = start g now - now in
    (
      wait,
      note_wait wait (record g {
        next_at = if ltb 0 g.interval then start g now + g.interval else max g.next_at now;
      }),
    )
