-- ===== src/Interceptor/Client/Quiet.antt =====
-- Asking the interceptor for a plan touches neither topic and not the subscription cache.
use openontology.Prelude.{
  ◌==◌, Bool-cases, Result, ok, raise, eq_string, eq_pair, Text, eq_text, ℕ, ◌≡◌, refl, ◌∙◌, inl,
  inr, Option, none, some, List, arith,
}
use openontology.Json.{Json, Fields}
use openontology.Settings.{Settings}
use openontology.License.Subscriptions.{Subscription}
use openontology.Mutation.{MutationEnvelope}
use openontology.Command.Plan.{ActionPlan}
use openontology.Interceptor.Failure.{InterceptorError, Circuit, failure}
use openontology.Interceptor.Client.{
  learn_quota, finish, call_at, destination, body, post, read_plan, read_response, read_answer,
  plan, route, interceptor_hints, interceptor_backoff,
}
use openontology.Retry.{Retried, done, failed, exhausted}
use openontology.Retry.Rule.{Brings, Leaves, retry_async-Leaves}
use openontology.World.{
  World, Environment, Answer, timed_out, transport_error, response, Request, effects,
}

module _ {Uuid : Type 0} where
  -- `w'` has the topics, the cache, the sends and the producer of `w`.
  pub record IsQuiet (w w' : World Uuid) : Type 0 where
    pub commands : w'.commands ≡ w.commands
    pub dead_letters : w'.dead_letters ≡ w.dead_letters
    pub cache : w'.cache ≡ w.cache
    pub sends : w'.sends ≡ w.sends
    pub started : w'.started ≡ w.started
    pub dlq_failures : w'.circuit.metrics.dlq_failures ≡ w.circuit.metrics.dlq_failures

  pub IsQuiet-refl : (w : World Uuid) → IsQuiet w w
  IsQuiet-refl w = record {
    commands = refl;
    dead_letters = refl;
    cache = refl;
    sends = refl;
    started = refl;
    dlq_failures = refl;
  }

  pub IsQuiet-trans : {w w' w'' : World Uuid} → IsQuiet w w' → IsQuiet w' w'' → IsQuiet w w''
  IsQuiet-trans p q = record {
    commands = q.commands ∙ p.commands;
    dead_letters = q.dead_letters ∙ p.dead_letters;
    cache = q.cache ∙ p.cache;
    sends = q.sends ∙ p.sends;
    started = q.started ∙ p.started;
    dlq_failures = q.dlq_failures ∙ p.dlq_failures;
  }

module _ {Uuid : Type 0} where
  -- Time, draws, calls, the gate, the requests and the other counters are not among what
  -- `IsQuiet` speaks of.
  pub moved :
      (w : World Uuid) (now draws calls : ℕ) (circuit : Circuit) (requests : List Request)
      → circuit.metrics.dlq_failures ≡ w.circuit.metrics.dlq_failures
      → IsQuiet w (record w {
        now = now;
        draws = draws;
        calls = calls;
        circuit = circuit;
        requests = requests;
      })
  moved w now draws calls circuit requests same = record {
    commands = refl;
    dead_letters = refl;
    cache = refl;
    sends = refl;
    started = refl;
    dlq_failures = same;
  }

  brings :
      (w : World Uuid) (r : Result InterceptorError ActionPlan × World Uuid)
      → IsQuiet w r.1
      → Brings (IsQuiet w) (λ p. IsQuiet w) r
  brings w (ok p, w') q = q
  brings w (raise e, w') q = q

  leaves :
      (w : World Uuid) (r : Retried InterceptorError ActionPlan × World Uuid)
      → Leaves (IsQuiet w) (λ p. IsQuiet w) r
      → IsQuiet w r.1
  leaves w (done p, w') q = q
  leaves w (failed e, w') q = q
  leaves w (exhausted, w') q = q

failure-dlq_failures :
    (settings : Settings) (now code : ℕ) (retry_after : Option ℕ) (c : Circuit)
    → (failure settings now code retry_after c).1.metrics.dlq_failures ≡ c.metrics.dlq_failures
unfolding failure
failure-dlq_failures settings now code retry_after c = ground arith

module _ {Uuid : Type 0} (env : Environment Uuid) (settings : Settings) where
  read_plan-IsQuiet :
      (received : Option Json) (w : World Uuid) → IsQuiet w (read_plan env settings received w).1
  unfolding read_plan
  read_plan-IsQuiet none w = IsQuiet-refl w
  read_plan-IsQuiet (some j) w = ground arith

  learn_quota-metrics :
      (raw : Option Text) (c : Circuit)
      → (learn_quota env settings raw c).metrics.dlq_failures ≡ c.metrics.dlq_failures
  unfolding learn_quota
  learn_quota-metrics none c = refl
  learn_quota-metrics (some raw) c = ground arith

  read_response-IsQuiet :
      (code : ℕ) (retry_after rate_limit : Option Text) (received : Option Json) (w : World Uuid)
      → IsQuiet w (read_response env settings code retry_after rate_limit received w).1
  unfolding read_response
  read_response-IsQuiet code retry_after rate_limit received w = elim (Bool-cases (code == 200)) [
    | inl good ↦
        rw (good, read_response)
          (IsQuiet-trans (moved w _ _ _ _ _ (learn_quota-metrics rate_limit w.circuit)) (
            read_plan-IsQuiet received
              (record w { circuit = learn_quota env settings rate_limit w.circuit })))
    | inr bad ↦
        rw (bad, read_response)
          (moved w _ _ _ _ _ (
            failure-dlq_failures settings w.now code _
              (learn_quota env settings rate_limit w.circuit)
            ∙ learn_quota-metrics rate_limit w.circuit))
  ]

  read_answer-IsQuiet :
      (answer : Answer) (w : World Uuid) → IsQuiet w (read_answer env settings answer w).1
  unfolding read_answer
  read_answer-IsQuiet timed_out w = ground arith
  read_answer-IsQuiet transport_error w = ground arith
  read_answer-IsQuiet (response code retry_after rate_limit received) w =
      read_response-IsQuiet code retry_after rate_limit received w

  finish-IsQuiet :
      (started : ℕ) (r : Result InterceptorError ActionPlan × World Uuid) (w : World Uuid)
      → IsQuiet w r.1
      → IsQuiet w (finish env settings started r).1
  finish-IsQuiet started (ok p, w') w q = q
  finish-IsQuiet started (raise e, w') w q = q

  call_at-IsQuiet :
      (mutation : MutationEnvelope) (raw : Option Fields)
      (found : Result InterceptorError (Text × Text)) (w : World Uuid)
      → IsQuiet w (call_at env settings mutation raw found w).1
  unfolding post
  call_at-IsQuiet mutation raw (raise e) w = IsQuiet-refl w
  call_at-IsQuiet mutation raw (ok (endpoint, presented)) w = finish-IsQuiet w.now _ w (
      IsQuiet-trans (moved w _ _ _ _ _ refl) (
        read_answer-IsQuiet (env.answer w.calls)
          (post env settings
            (record {
              endpoint = endpoint;
              presented = presented;
              body = body env settings mutation raw;
            })
            w).1))

  plan-IsQuiet :
      (mutation : MutationEnvelope) (subscription : Subscription) (raw : Option Fields)
      (w : World Uuid)
      → IsQuiet w (plan env settings mutation subscription raw w).1
  unfolding plan
  plan-IsQuiet mutation subscription raw w =
      call_at-IsQuiet mutation raw (destination settings subscription) w

  -- However often the interceptor is asked and whatever it answers, the topics, the cache, the
  -- sends and the producer are as before.
  pub route-IsQuiet :
      (mutation : MutationEnvelope) (subscription : Subscription) (raw : Option Fields)
      (w : World Uuid)
      → IsQuiet w (route env settings mutation subscription raw w).1
  unfolding route
  route-IsQuiet mutation subscription raw w = leaves w _ (
      retry_async-Leaves (effects env) interceptor_hints (interceptor_backoff env settings)
        (plan env settings mutation subscription raw) (IsQuiet w) (λ p. IsQuiet w)
        (λ s q.
          brings w (plan env settings mutation subscription raw s)
            (IsQuiet-trans q (plan-IsQuiet mutation subscription raw s)))
        (λ e attempt s q. IsQuiet-trans q (moved s _ _ _ _ _ refl)) w (IsQuiet-refl w))
