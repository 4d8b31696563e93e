-- ===== src/Retry/Rule.antt =====
-- The invariant rule of `retry_async`: what holds before every attempt and after every failed one,
-- and what a successful attempt brings about.
use openontology.Prelude.{
  Bool-cases, Result, ok, raise, Result-cases, eq_string, eq_pair, eq_text, ℕ, zero, suc, ◌+◌, inl,
  inr,
}
use openontology.Retry.{
  Hints, Effects, Backoff, Retried, done, failed, exhausted, pause, gives_up, attempt_from,
  retry_async,
}

module _ {κ} {S E A : Type 0} (P : S → Type κ) (Q : A → S → Type κ) where
  abbrev pub Brings : Result E A × S → Type κ
  Brings (ok a, s) = Q a s
  Brings (raise e, s) = P s

  abbrev pub Leaves : Retried E A × S → Type κ
  Leaves (done a, s) = Q a s
  Leaves (failed e, s) = P s
  Leaves (exhausted, s) = P s

module _ {κ} {S E A : Type 0} (fx : Effects S) (hints : Hints E) (b : Backoff)
    (operation : S → Result E A × S) (P : S → Type κ) (Q : A → S → Type κ)
    (attempted : (s : S) → P s → Brings {E = E} P Q (operation s))
    (paused : (e : E) (attempt : ℕ) (s : S)
      → P s
      → P (pause fx hints b operation e attempt s)) where
  attempt_from-Leaves :
      (left attempt : ℕ) (s : S)
      → P s
      → Leaves P Q (attempt_from fx hints b operation left attempt s)
  unfolding attempt_from
  attempt_from-Leaves zero attempt s h = h
  attempt_from-Leaves (suc left) attempt s h = elim (Result-cases (operation s).0) [
    | inl (a, e) ↦ rw (e, attempt_from) (rw e at (attempted s h))
    | inr (x, e) ↦ elim (Bool-cases (gives_up fx hints b operation x attempt)) [
      | inl stop ↦ rw (e, attempt_from) (rw stop (rw e at (attempted s h)))
      | inr go_on ↦
          rw (e, attempt_from)
            (rw go_on (
              attempt_from-Leaves left (attempt + 1)
                (pause fx hints b operation x attempt (operation s).1)
                (paused x attempt (operation s).1 (rw e at (attempted s h)))))
    ]
  ]

  pub retry_async-Leaves : (s : S) → P s → Leaves P Q (retry_async fx hints b operation s)
  unfolding retry_async
  retry_async-Leaves s h = attempt_from-Leaves b.attempts 1 s h
