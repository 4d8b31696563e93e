-- ===== src/Preflight/Strict.antt =====
-- What it takes for the consumers of services/command-worker/command_worker.py to start in a strict
-- deployment.
use openontology.Prelude.{
  NoneType, Bool-cases, Result, ok, raise, eq_string, eq_pair, Text, eq_text, ℕ, zero, suc, ◌≡◌,
  refl, ◌∙◌, inl, inr, Bool, true, false, ◌&&◌,
}
use openontology.Json.{Json}
use openontology.Settings.{Settings}
use openontology.World.{Environment}
use openontology.Preflight.Local.{TypeError, Boot}
use openontology.Preflight.Loop.{run, pause, give_up, next, attempt_from, run_preflight_until_ready}
use openontology.Preflight.Agreement.{IsAgreed, run-passes_iff}
use openontology.Preflight.Settled.{Concludes, run-Concludes}

module _ {Uuid : Type 0} (env : Environment Uuid) (to_str : Json → Text) (settings : Settings) where
  -- The states in which the attempts of a boot begin: each next one follows a failed attempt and
  -- some pause.
  pub data Attempted : Boot Uuid → Boot Uuid → Type 0 where
    first : (b : Boot Uuid) → Attempted b b
    later :
        (b b' : Boot Uuid) (delay : ℕ)
        → (run env to_str settings b).0 ≡ ok false
        → Attempted (pause env to_str settings delay (run env to_str settings b).1) b'
        → Attempted b b'

  Concludes-proceed :
      (attempts : ℕ) (proceed : Bool) (r : Result TypeError Bool × Boot Uuid)
      → Concludes env to_str settings attempts proceed r
      → r.1.proceed ≡ proceed
  Concludes-proceed attempts proceed (raise e, b) h = h.1
  Concludes-proceed attempts proceed (ok true, b) h = h.1
  Concludes-proceed attempts proceed (ok false, b) h = h.1

  next-opens :
      {Q : Type 0} (more : Bool) (again : Boot Uuid → Result TypeError NoneType × Boot Uuid)
      (r : Result TypeError Bool × Boot Uuid)
      → r.1.proceed ≡ false
      → settings.interceptor_preflight_strict ≡ true
      → (r.0 ≡ ok true → Q)
      → (r.0 ≡ ok false → (again r.1).1.proceed ≡ true → Q)
      → (next env to_str settings more again r).1.proceed ≡ true
      → Q
  unfolding next give_up
  next-opens more again (raise e, b) closed strict won resumed h = absurd (cc)
  next-opens more again (ok true, b) closed strict won resumed h = won refl
  next-opens more again (ok false, b) closed strict won resumed h =
      elim (Bool-cases (b.status.retryable && more)) [
        | inl retry ↦ resumed refl (rw (retry, next) at h)
        | inr over ↦ absurd (let h' = rw (over, next, strict) at h in cc)
      ]

  Agrees : Boot Uuid → Type 0
  Agrees b = (b' : Boot Uuid) × Attempted b b' × IsAgreed env to_str settings b'

  attempt_from-Agrees :
      (left delay : ℕ) (b : Boot Uuid)
      → b.proceed ≡ false
      → settings.interceptor_preflight_strict ≡ true
      → (attempt_from env to_str settings left delay b).1.proceed ≡ true
      → Agrees b
  unfolding attempt_from give_up Agrees pause
  attempt_from-Agrees zero delay b closed strict h = absurd (let h' = rw strict at h in cc)
  attempt_from-Agrees (suc left) delay b closed strict h =
      let held : (run env to_str settings b).1.proceed ≡ false =
        Concludes-proceed _ _ (run env to_str settings b) (run-Concludes env to_str settings b)
        ∙ closed in
      next-opens _ _ (run env to_str settings b) held strict
        (λ won. (b, first b, (run-passes_iff env to_str settings b).0 won))
        (λ lost opened.
          let (b', tried, agreed) =
            attempt_from-Agrees left _
              (pause env to_str settings delay (run env to_str settings b).1) held strict opened in
          (b', later b b' delay lost tried, agreed))
        h

  -- In a strict deployment whose consumers are held at first, they start only if at the beginning
  -- of some attempt, after failed ones, the worker's gate admits its own key and the interceptor
  -- agrees with it on the licence.
  pub run_preflight_until_ready-strict :
      (b : Boot Uuid)
      → b.proceed ≡ false
      → settings.interceptor_preflight_strict ≡ true
      → (run_preflight_until_ready env to_str settings b).1.proceed ≡ true
      → (b' : Boot Uuid) × Attempted b b' × IsAgreed env to_str settings b'
  unfolding run_preflight_until_ready Agrees
  run_preflight_until_ready-strict b =
      attempt_from-Agrees settings.interceptor_preflight_attempts settings.retry_base_seconds b
