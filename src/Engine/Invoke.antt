-- ===== src/Engine/Invoke.antt =====
-- `_invoke` of services/graphrag-interceptor/graphrag_interceptor.py: one agent turn. The n-th call
-- of the agent has the n-th answer of a function that is arbitrary.
use openontology.Prelude.{
  NoneType, if◌then◌else◌, Result, ok, raise, eq_string, eq_pair, eq_text, ℕ, zero, suc, ◌+◌, Bool,
}
use openontology.Engine.Agents.{AgentError, timed_out, invalid_answer, transport_failure}

-- what a call of the agent comes to; `malformed` is an answer that is not of the model's shape
pub data Emission (A : Type 0) : Type 0 where
  timeout failure malformed : Emission A
  emitted : A → Emission A

module _ {A : Type 0} (contract : A → Bool) (validate : A → Result AgentError NoneType) where
  abbrev pub validated : A → Result AgentError NoneType → Result AgentError A
  validated parsed (ok done) = ok parsed
  validated parsed (raise error) = raise error

  -- the body of the `try`, with the error that each `except` notes
  unfoldable pub turn : Emission A → Result AgentError A
  turn timeout = raise timed_out
  turn failure = raise transport_failure
  turn malformed = raise invalid_answer
  turn (emitted parsed) =
      if contract parsed then validated parsed (validate parsed) else raise invalid_answer

  -- what an attempt returns: the answer with the number of the attempt, or what comes after it
  abbrev pub or_next :
      ℕ → Result AgentError A → Result AgentError (A × ℕ) → Result AgentError (A × ℕ)
  or_next attempt (ok parsed) next = ok (parsed, attempt)
  or_next attempt (raise error) next = next

  abbrev pub noted : AgentError → Result AgentError A → AgentError
  noted last_error (ok parsed) = last_error
  noted last_error (raise error) = error

  -- the loop, with the number of attempts left, the next attempt and `last_error`
  unfoldable pub attempts :
      (ℕ → Emission A) → (left attempt : ℕ) → AgentError → Result AgentError (A × ℕ)
  unfolding turn
  attempts emit zero attempt last_error = raise last_error
  attempts emit (suc left) attempt last_error =
      or_next attempt (turn (emit attempt))
        (attempts emit left (attempt + 1) (noted last_error (turn (emit attempt))))

  -- `_invoke`, for at least one attempt
  unfoldable pub invoke : (ℕ → Emission A) → (agent_max_attempts : ℕ) → Result AgentError (A × ℕ)
  unfolding attempts
  invoke emit agent_max_attempts = attempts emit agent_max_attempts 1 timed_out
