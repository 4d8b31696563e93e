-- ===== src/Retry/Attempts.antt =====
-- How often `retry_async` runs its operation, and what it keeps.
use openontology.Prelude.{
  Bool-cases, Result, raise, Result-cases, eq_string, eq_pair, eq_text, ℕ, zero, suc, ◌+◌, ◌≤◌, ◌<◌,
  ◌≡◌, ap, ◌∙◌, ◌≢◌, ◌⊎◌, inl, inr, true, false, ◌&&◌, arith,
}
use openontology.Retry.{
  Hints, Effects, Backoff, Retried, done, failed, exhausted, pause, gives_up, attempt_from,
  retry_async,
}

module _ {S E A : Type 0} (fx : Effects S) (hints : Hints E) (b : Backoff)
    (operation : S → Result E A × S) where
  is_last :
      (x : E) (attempt : ℕ)
      → gives_up fx hints b operation x attempt ≡ true
      → ((hints.caught x && hints.should_retry x) ≡ false) ⊎ (attempt ≡ b.attempts)
  is_last x attempt h = ground arith

  not_last :
      (x : E) (attempt : ℕ) → gives_up fx hints b operation x attempt ≡ false → attempt ≢ b.attempts
  not_last x attempt h = ground arith

  module _ (count : S → ℕ) (operation_counts : (s : S) → count (operation s).1 ≡ suc (count s))
      (pause_silent : (e : E) (attempt : ℕ) (s : S)
        → count (pause fx hints b operation e attempt s) ≡ count s) where
    -- What the outcome of `left` rounds says of the calls made since `before`.
    abbrev pub Spends : ℕ → ℕ → Retried E A × S → Type 0
    Spends left before (done a, s') = (before < count s') × (count s' ≤ before + left)
    Spends left before (failed e, s') =
        (before < count s')
        × (count s' ≤ before + left)
        × (((hints.caught e && hints.should_retry e) ≡ false) ⊎ (count s' ≡ before + left))
    Spends left before (exhausted, s') = ⊥

    Spends-suc :
        (left before : ℕ) (s : S) (r : Retried E A × S)
        → count s ≡ suc before
        → Spends left (count s) r
        → Spends (suc left) before r
    Spends-suc left before s (done a, s') e h = omega arith
    Spends-suc left before s (failed x, s') e (more, within, spent) = (
      omega arith,
      omega arith,
      elim spent [ inl no_retry ↦ inl no_retry | inr all_spent ↦ inr (omega arith) ],
    )
    Spends-suc left before s (exhausted, s') e h = h

    attempt_from-Spends :
        (left attempt : ℕ) (s : S)
        → 0 < left
        → left + attempt ≡ suc b.attempts
        → Spends left (count s) (attempt_from fx hints b operation left attempt s)
    unfolding attempt_from
    attempt_from-Spends zero attempt s pos total = absurd (omega arith)
    attempt_from-Spends (suc left) attempt s pos total =
        let counted = operation_counts s in
        elim (Result-cases (operation s).0) [
          | inl (a, e) ↦ rw (e, attempt_from) (omega arith)
          | inr (x, e) ↦ elim (Bool-cases (gives_up fx hints b operation x attempt)) [
            | inl stop ↦
                rw (e, attempt_from)
                  (rw stop (
                    omega arith,
                    omega arith,
                    elim (is_last x attempt stop) [
                      | inl no_retry ↦ inl no_retry
                      | inr last ↦ inr (omega arith)
                    ],
                  ))
            | inr go_on ↦
                rw (e, attempt_from)
                  (rw go_on (
                    Spends-suc left (count s) (pause fx hints b operation x attempt (operation s).1)
                      _ (pause_silent x attempt (operation s).1 ∙ counted)
                      (attempt_from-Spends left (attempt + 1)
                        (pause fx hints b operation x attempt (operation s).1)
                        (let more = not_last x attempt go_on in omega arith) (omega arith))))
          ]
        ]

    -- With at least one attempt allowed, `retry_async` runs its operation at least once and at
    -- most `attempts` times; it never falls through the loop; and a caught, retryable error comes
    -- out only after all the attempts are spent. (`count` counts the runs of the operation.)
    pub retry_async-Spends :
        (s : S) → 0 < b.attempts → Spends b.attempts (count s) (retry_async fx hints b operation s)
    unfolding retry_async
    retry_async-Spends s pos = attempt_from-Spends b.attempts 1 s pos (omega arith)

  asks_no_retry :
      (x : E) (attempt : ℕ)
      → (hints.caught x && hints.should_retry x) ≡ false
      → gives_up fx hints b operation x attempt ≡ true
  asks_no_retry x attempt h = ground arith

  attempt_from-gives_up :
      (left attempt : ℕ) (s s' : S) (x : E)
      → 0 < left
      → operation s ≡ (raise x, s')
      → (hints.caught x && hints.should_retry x) ≡ false
      → attempt_from fx hints b operation left attempt s ≡ (failed x, s')
  unfolding attempt_from
  attempt_from-gives_up zero attempt s s' x pos e h = absurd (omega arith)
  attempt_from-gives_up (suc left) attempt s s' x pos e h =
      let raised : (operation s).0 ≡ raise x = ap (λ p. p.0) e in
      let left_in : (operation s).1 ≡ s' = ap (λ p. p.1) e in
      rw (raised, attempt_from) (rw (asks_no_retry x attempt h) (rw left_in))

  -- An error that asks for no retry, or that `retry_on` does not catch, is raised after the one
  -- call that met it: nothing is drawn and nobody sleeps.
  retry_async-gives_up :
      (s s' : S) (x : E)
      → 0 < b.attempts
      → operation s ≡ (raise x, s')
      → (hints.caught x && hints.should_retry x) ≡ false
      → retry_async fx hints b operation s ≡ (failed x, s')
  unfolding retry_async
  retry_async-gives_up s s' x pos e h = attempt_from-gives_up b.attempts 1 s s' x pos e h
