-- ===== src/Retry.antt =====
-- `retry_async` of services/command-worker/command_worker.py, over any operation on any state.
-- `random` and `sleep` are the two effects that the helper has itself.
pub mod Delay
pub mod Attempts
pub mod Rule
use openontology.Prelude.{
  ltb, leb, ◌==◌, if◌then◌else◌, ltb→lt, lt→ltb, leb→le, le→leb, ==_iff, Bool-cases, Option-cases,
  some_inj, length, take, is_empty, any, all, keep, length-append, length-take, length-keep-le, All,
  All-append, All-take, Result, ok, raise, ◌>>=◌, Result-cases, Eq, eq_string, eq_pair,
  string_beq_iff, pair_beq_iff, pair_beq, Text, codes, text_eq, text_eq_sound, text_eq_complete,
  text_eq_refl, text_eq_iff, eq_text, is_space, lstrip, rstrip_onto, rstrip, upper_char, find,
  member, find-All, lower_char, has_prefix, onto_first, split_on, strip, upper, lower, replace_char,
  rstrip_char, ℕ, zero, suc, ◌+◌, ◌-◌, ◌*◌, ◌/◌, ◌%◌, ◌^◌, ◌≤◌, ◌<◌, min, max, String, ◌≡◌, refl,
  sym, ap, ◌∙◌, subst, ◌≢◌, ◌↔◌, ◌⊎◌, inl, inr, Bool, true, false, not, ◌&&◌, ◌||◌, Option, none,
  some, List, [], ◌∷◌, ◌++◌, map, arith, string_eq,
}
use openontology.Clock.{second, scale_random}

-- What an exception tells the helper: whether `retry_on` catches it, its `should_retry` and its
-- `retry_after`.
pub record Hints (E : Type 0) : Type 0 where
  pub caught : E → Bool
  pub should_retry : E → Bool
  pub retry_after : E → Option ℕ

pub record Effects (S : Type 0) : Type 0 where
  pub random : S → ℕ × S
  pub sleep : ℕ → S → S

pub record Backoff : Type 0 where
  pub attempts : ℕ
  pub base_seconds : ℕ
  pub max_seconds : ℕ
  pub retry_after_cap : Option ℕ

-- `exhausted` is the `RuntimeError` under the loop.
pub data Retried (E A : Type 0) : Type 0 where
  done : A → Retried E A
  failed : E → Retried E A
  exhausted : Retried E A

abbrev pub capped : Option ℕ → ℕ → ℕ
capped none hinted = hinted
capped (some cap) hinted = min hinted cap

abbrev pub ceiling : Backoff → ℕ → ℕ
ceiling b attempt = min b.max_seconds (b.base_seconds * 2 ^ (attempt - 1))

-- `delay`, from the exception's hint, the attempt and a random draw
unfoldable pub delay : Backoff → Option ℕ → ℕ → ℕ → ℕ
delay b (some hinted) attempt draw =
    let d = capped b.retry_after_cap hinted in d + scale_random draw (min second (d / 10))
delay b none attempt draw = let half = ceiling b attempt / 2 in half + scale_random draw half

module _ {S E A : Type 0} (fx : Effects S) (hints : Hints E) (b : Backoff)
    (operation : S → Result E A × S) where
  -- the draw and the sleep between two attempts
  abbrev pub pause : E → ℕ → S → S
  pause e attempt s =
      let (draw, s') = fx.random s in fx.sleep (delay b (hints.retry_after e) attempt draw) s'

  -- whether the loop raises `e` on this attempt
  abbrev pub gives_up : E → ℕ → Bool
  gives_up e attempt = not (hints.caught e) || not (hints.should_retry e) || (attempt == b.attempts)

  -- the loop, with `left` rounds left
  unfoldable pub attempt_from : (left attempt : ℕ) → S → Retried E A × S
  attempt_from zero attempt s = (exhausted, s)
  attempt_from (suc left) attempt s =
      let (r, s') = operation s in
      elim r [
        | ok a ↦ (done a, s')
        | raise e ↦ elim (gives_up e attempt) [
          | true ↦ (failed e, s')
          | false ↦ attempt_from left (attempt + 1) (pause e attempt s')
        ]
      ]

  -- `retry_async`
  unfoldable pub retry_async : S → Retried E A × S
  unfolding attempt_from
  retry_async = attempt_from b.attempts 1
