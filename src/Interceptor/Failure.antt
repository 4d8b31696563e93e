-- ===== src/Interceptor/Failure.antt =====
-- `InterceptorError` and `HttpInterceptorClient._failure` of
-- services/command-worker/command_worker.py, with the counters and the cooldown that it sets.
pub mod Blame
use openontology.Prelude.{
  ok_inj, >>=-eq-ok, decimal, decimal_inj, IsDigit, decimal-IsDigit, ltb, leb, ◌==◌, if◌then◌else◌,
  ltb→lt, lt→ltb, leb→le, le→leb, ==_iff, Bool-cases, Option-cases, some_inj, length, take,
  is_empty, any, all, keep, length-append, length-take, length-keep-le, All, All-append, All-take,
  Result, ok, raise, ◌>>=◌, Result-cases, Eq, eq_string, eq_pair, string_beq_iff, pair_beq_iff,
  pair_beq, Text, codes, text_eq, text_eq_sound, text_eq_complete, text_eq_refl, text_eq_iff,
  eq_text, is_space, lstrip, rstrip_onto, rstrip, upper_char, find, member, find-All, lower_char,
  has_prefix, onto_first, split_on, strip, upper, lower, replace_char, rstrip_char, ℕ, zero, suc,
  ◌+◌, ◌-◌, ◌*◌, ◌/◌, ◌%◌, ◌^◌, ◌≤◌, ◌<◌, min, max, String, ◌≡◌, refl, sym, ap, ◌∙◌, subst, ◌≢◌,
  ◌↔◌, ◌⊎◌, inl, inr, Bool, true, false, not, ◌&&◌, ◌||◌, Option, none, some, List, [], ◌∷◌, ◌++◌,
  map, arith, string_eq,
}
use openontology.Metrics.{Metrics}
use openontology.RateGate.{RateGate, apply_cooldown}
use openontology.Settings.{Settings}

pub record InterceptorError : Type 0 where
  pub permanent : Bool
  pub retryable : Bool
  pub status_code : Option ℕ
  pub retry_after : Option ℕ

-- `InterceptorError.should_retry`
abbrev pub should_retry : InterceptorError → Bool
should_retry e = e.retryable && not e.permanent

abbrev pub one_of : ℕ → List ℕ → Bool
one_of code codes = any (λ c. code == c) codes

-- What every call of the interceptor shares.
pub record Circuit : Type 0 where
  pub gate : RateGate
  pub metrics : Metrics

abbrev pub error : (permanent retryable : Bool) → ℕ → Option ℕ → InterceptorError
error permanent retryable code retry_after = record {
  permanent = permanent;
  retryable = retryable;
  status_code = some code;
  retry_after = retry_after;
}

-- `self._gate.apply_cooldown(retry_after)` under `if retry_after is not None`
abbrev pub cool_if_hinted : Option ℕ → ℕ → RateGate → RateGate
cool_if_hinted none now g = g
cool_if_hinted (some wait) now g = apply_cooldown wait now g

-- `retry_after if retry_after is not None else self._settings.retry_max_seconds`
abbrev pub wait_or : ℕ → Option ℕ → ℕ
wait_or default none = default
wait_or default (some wait) = wait

-- `HttpInterceptorClient._failure` on the status `code`, with the parsed `Retry-After` header.
unfoldable pub failure : Settings → (now code : ℕ) → Option ℕ → Circuit → InterceptorError × Circuit
failure settings now code retry_after c =
    if one_of code (400 ∷ 413 ∷ 422 ∷ [])
    then (
      error true true code none,
      record c {
        metrics = record c.metrics { interceptor_rejected = c.metrics.interceptor_rejected + 1 };
      },
    )
    else if one_of code (401 ∷ 402 ∷ 403 ∷ [])
    then (
      error false false code none,
      record c {
        metrics = record c.metrics {
          interceptor_auth_failures = c.metrics.interceptor_auth_failures + 1;
        };
      },
    )
    else if one_of code (404 ∷ 405 ∷ 501 ∷ []) || (leb 300 code && ltb code 400)
    then (error false false code none, c)
    else if one_of code (408 ∷ 409 ∷ 425 ∷ [])
    then (error false true code retry_after, c)
    else if code == 429
    then (
      error false true code retry_after,
      record {
        gate = apply_cooldown (wait_or settings.retry_max_seconds retry_after) now c.gate;
        metrics = record c.metrics { interceptor_throttled = c.metrics.interceptor_throttled + 1 };
      },
    )
    else if leb 500 code
    then (
      error false true code retry_after,
      record {
        gate = cool_if_hinted retry_after now c.gate;
        metrics = record c.metrics {
          interceptor_server_errors = c.metrics.interceptor_server_errors + 1;
        };
      },
    )
    else (error false false code none, c)
