-- ===== src/Interceptor/RetryAfter.antt =====
-- `parse_retry_after` of services/command-worker/command_worker.py. `parse_float` stands for
-- `float(...)` and `parse_date` for `parsedate_to_datetime` with its result taken to UTC; `none` is
-- a refusal of either.
use openontology.Prelude.{
  ltb, if◌then◌else◌, Bool-cases, is_empty, eq_string, eq_pair, Text, eq_text, strip, ℕ, ◌-◌, ◌≤◌,
  min, ◌≡◌, inl, inr, Option, none, some, arith,
}

-- A number of seconds, in microseconds: infinite or not a number, below zero, or neither.
pub data Seconds : Type 0 where
  not_finite negative : Seconds
  finite : ℕ → Seconds

-- `when - now`
abbrev pub until : (when now : ℕ) → Seconds
until when now = if ltb when now then negative else finite (when - now)

-- `max(0.0, min(seconds, cap))`, if the number is finite
abbrev pub clamp : ℕ → Seconds → Option ℕ
clamp cap not_finite = none
clamp cap negative = some 0
clamp cap (finite seconds) = some (min seconds cap)

module _ (parse_float : Text → Option Seconds) (parse_date : Text → Option ℕ) where
  pub parse_seconds : ℕ → Text → Option Seconds
  parse_seconds now raw = elim (parse_float raw) [
    | some seconds ↦ some seconds
    | none ↦ elim (parse_date raw) [ none ↦ none | some when ↦ some (until when now) ]
  ]

  abbrev clamp_all : ℕ → Option Seconds → Option ℕ
  clamp_all cap none = none
  clamp_all cap (some seconds) = clamp cap seconds

  -- `parse_retry_after`, at the time `now`
  unfoldable pub parse_retry_after : (cap now : ℕ) → Option Text → Option ℕ
  unfolding parse_seconds
  parse_retry_after cap now none = none
  parse_retry_after cap now (some value) =
      if is_empty value then none else clamp_all cap (parse_seconds now (strip value))

  -- A header can park a consumer for at most the configured cap, whatever it says.
  parse_retry_after-le :
      (cap now : ℕ) (value : Option Text) (seconds : ℕ)
      → parse_retry_after cap now value ≡ some seconds
      → seconds ≤ cap
  unfolding parse_retry_after
  parse_retry_after-le cap now none seconds h = cc
  parse_retry_after-le cap now (some value) seconds h = elim (Bool-cases (is_empty value)) [
    | inl blank ↦ cc (rw blank at h)
    | inr kept ↦ go (parse_seconds now (strip value)) (rw kept at h)
  ]
    where
      go : (parsed : Option Seconds) → clamp_all cap parsed ≡ some seconds → seconds ≤ cap
      go none e = cc
      go (some not_finite) e = cc
      go (some negative) e = ground arith
      go (some (finite n)) e = ground arith
