-- ===== src/Interceptor/Failure/Blame.antt =====
-- Whose fault a failed call is taken to be.
use openontology.Prelude.{
  leb, ◌==◌, eq_string, eq_pair, eq_text, ℕ, ◌+◌, ◌≤◌, ◌<◌, ◌≡◌, refl, ◌≢◌, ◌↔◌, Bool, true, false,
  not, ◌&&◌, ◌||◌, Option, [], ◌∷◌, arith,
}
use openontology.RateGate.{start, apply_cooldown}
use openontology.Settings.{Settings}
use openontology.Interceptor.Failure.{
  InterceptorError, Circuit, should_retry, one_of, failure, wait_or,
}

either_or : (permanent retryable : Bool) → (permanent && (retryable && not permanent)) ≡ false
either_or true true = refl
either_or true false = refl
either_or false retryable = refl

-- A permanent error never asks for a retry.
never_both : (e : InterceptorError) → (e.permanent && should_retry e) ≡ false
never_both e = either_or e.permanent e.retryable

module _ (settings : Settings) (now code : ℕ) (retry_after : Option ℕ) (c : Circuit) where
  -- An answer is held against the message, and so dead-lettered, if and only if its status is one
  -- of 400, 413 and 422; and such an answer is never tried again.
  failure-permanent_iff :
      let (e, c') = failure settings now code retry_after c in
      ((e.permanent ≡ true) ↔ (one_of code (400 ∷ 413 ∷ 422 ∷ []) ≡ true))
      × ((e.permanent && should_retry e) ≡ false)
  unfolding failure
  failure-permanent_iff = (
    (λ h. ground arith, λ h. ground arith),
    never_both (failure settings now code retry_after c).0,
  )

  -- Another attempt is spent if and only if the status is 408, 409, 425 or 429, or at least 500
  -- other than 501.
  pub failure-should_retry_iff :
      (should_retry (failure settings now code retry_after c).0 ≡ true)
      ↔ ((one_of code (408 ∷ 409 ∷ 425 ∷ 429 ∷ []) || (leb 500 code && not (code == 501))) ≡ true)
  unfolding failure
  failure-should_retry_iff = (λ h. ground arith, λ h. ground arith)

  -- After a 429 with the wait `w`, its own or the default, which is positive, no later call starts
  -- before `now + w`.
  pub failure-cooldown :
      code ≡ 429
      → 0 < wait_or settings.retry_max_seconds retry_after
      → (later : ℕ)
      → now + wait_or settings.retry_max_seconds retry_after
        ≤ start (failure settings now code retry_after c).1.gate later
  unfolding failure apply_cooldown
  failure-cooldown same pos later = ground arith

  -- A status below 500 other than 429 stalls nobody: the gate is left as it was.
  failure-gate : code < 500 → code ≢ 429 → (failure settings now code retry_after c).1.gate ≡ c.gate
  unfolding failure
  failure-gate below other = ground arith
