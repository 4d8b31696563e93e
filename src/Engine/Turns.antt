-- ===== src/Engine/Turns.antt =====
-- The attempts of an agent turn.
use openontology.Prelude.{
  NoneType, ok_inj, ltb, if◌then◌else◌, Bool-cases, Result, ok, raise, eq_string, eq_pair, eq_text,
  ℕ, zero, suc, ◌+◌, ◌≤◌, ◌<◌, ◌≡◌, refl, sym, ap, ◌∙◌, subst, ◌⊎◌, inl, inr, Bool, true, false,
  arith,
}
use openontology.Engine.Agents.{AgentError, timed_out, invalid_answer}
use openontology.Engine.Invoke.{
  Emission, emitted, turn, validated, or_next, noted, attempts, invoke,
}

at_or_after : (a m : ℕ) → a ≤ m → (a ≡ m) ⊎ (a + 1 ≤ m)
at_or_after a m h = elim (Bool-cases (ltb a m)) [
  | inl lt ↦ inr (ground arith)
  | inr ge ↦ inl (ground arith)
]

module _ {A : Type 0} (contract : A → Bool) (validate : A → Result AgentError NoneType)
    (emit : ℕ → Emission A) where
  -- the attempt that was not usable
  abbrev pub Rejected : ℕ → Type 0
  Rejected n = (error : AgentError) × (turn contract validate (emit n) ≡ raise error)

  -- How the attempts from one number on, as many as are left, come out.
  pub data Turns (left attempt : ℕ) (last_error : AgentError) (r : Result AgentError (A × ℕ))
      : Type 0 where
    -- the first usable answer is returned
    accepted :
        (parsed : A) (n : ℕ)
        → r ≡ ok (parsed, n)
        → attempt ≤ n
        → n < attempt + left
        → turn contract validate (emit n) ≡ ok parsed
        → ((m : ℕ) → attempt ≤ m → m < n → Rejected m)
        → Turns left attempt last_error r
    -- no attempt was usable, and the error of the last one is raised
    exhausted :
        (error : AgentError)
        → r ≡ raise error
        → ((m : ℕ) → attempt ≤ m → m < attempt + left → Rejected m)
        → ((left ≡ 0) × (error ≡ last_error))
          ⊎ ((n : ℕ) × (suc n ≡ attempt + left) × (turn contract validate (emit n) ≡ raise error))
        → Turns left attempt last_error r

  extend :
      (n attempt : ℕ) (error : AgentError)
      → turn contract validate (emit attempt) ≡ raise error
      → ((m : ℕ) → attempt + 1 ≤ m → m < n → Rejected m)
      → (m : ℕ) → attempt ≤ m
      → m < n
      → Rejected m
  extend n attempt error e later m h k = elim (at_or_after attempt m h) [
    | inl same ↦ subst Rejected same (error, e)
    | inr after ↦ later m after k
  ]

  attempts-Turns :
      (left attempt : ℕ) (last_error : AgentError)
      → Turns left attempt last_error (attempts contract validate emit left attempt last_error)
  unfolding attempts
  attempts-Turns zero attempt last_error =
      exhausted last_error refl (λ m h k. absurd (omega arith)) (inl (refl, refl))
  attempts-Turns (suc left) attempt last_error = go (turn contract validate (emit attempt)) refl (
      attempts-Turns left (attempt + 1)
        (noted contract validate last_error (turn contract validate (emit attempt))))
    where
      next : Result AgentError A → Result AgentError (A × ℕ)
      next t =
          attempts contract validate emit left (attempt + 1) (noted contract validate last_error t)

      further :
          (error : AgentError)
          → turn contract validate (emit attempt) ≡ raise error
          → (r : Result AgentError (A × ℕ)) → Turns left (attempt + 1) error r
          → Turns (suc left) attempt last_error r
      further error e r (accepted parsed n done least most usable before) =
          accepted parsed n done (omega arith) (omega arith) usable
            (extend n attempt error e before)
      further error e r (exhausted final done all_ (inl (none_left, same))) =
          exhausted final done
            (λ m h k.
              extend (attempt + suc left) attempt error e (λ m h k. absurd (omega arith)) m h k)
            (inr (attempt, omega arith, e ∙ ap raise (sym same)))
      further error e r (exhausted final done all_ (inr (n, at, failed))) =
          exhausted final done
            (extend (attempt + suc left) attempt error e (λ m h k. all_ m h (omega arith)))
            (inr (n, omega arith, failed))

      go :
          (t : Result AgentError A)
          → turn contract validate (emit attempt) ≡ t
          → Turns left (attempt + 1) (noted contract validate last_error t) (next t)
          → Turns (suc left) attempt last_error (or_next contract validate attempt t (next t))
      go (ok parsed) e ih =
          accepted parsed attempt refl (omega arith) (omega arith) e (λ m h k. absurd (omega arith))
      go (raise error) e ih = further error e (next (raise error)) ih

  -- An agent turn returns the first answer that its contract and the graph admit, with the number
  -- of the attempt; or every attempt was rejected, and the error of the last one is raised.
  pub invoke-Turns :
      (agent_max_attempts : ℕ)
      → Turns agent_max_attempts 1 timed_out (invoke contract validate emit agent_max_attempts)
  unfolding invoke
  invoke-Turns agent_max_attempts = attempts-Turns agent_max_attempts 1 timed_out

  -- A usable answer was emitted, keeps its contract, and the graph admits it.
  pub turn-ok :
      (e : Emission A) (parsed : A)
      → turn contract validate e ≡ ok parsed
      → (contract parsed ≡ true) × (validate parsed ≡ ok tt) × (e ≡ emitted parsed)
  unfolding turn
  turn-ok Emission.timeout parsed h = cc
  turn-ok Emission.failure parsed h = cc
  turn-ok Emission.malformed parsed h = cc
  turn-ok (emitted answer) parsed h =
      go (contract answer) refl (validate answer) refl (subst (λ t. t ≡ ok parsed) refl h)
    where
      go :
          (b : Bool)
          → contract answer ≡ b
          → (v : Result AgentError NoneType) → validate answer ≡ v
          → (if b then validated contract validate answer v else raise invalid_answer) ≡ ok parsed
          → (contract parsed ≡ true) × (validate parsed ≡ ok tt) × (emitted answer ≡ emitted parsed)
      go true e (ok done) e' h =
          let same : answer ≡ parsed = ok_inj h in
          (
            subst (λ a. contract a ≡ true) same e,
            subst (λ a. validate a ≡ ok tt) same e',
            ap emitted same,
          )
      go true e (raise error) e' h = cc
      go false e v e' h = cc
