-- ===== src/Interceptor/Client.antt =====
-- `HttpInterceptorClient` and the http mode of `ActionRouter` in
-- services/command-worker/command_worker.py. One consumer holds one slot, so the semaphore of the
-- gate does not block it.
pub mod Conformance
pub mod Quiet
use openontology.Prelude.{
  replicate, replicate-snoc, NoneType, ok_inj, >>=-eq-ok, decimal, decimal_inj, IsDigit,
  decimal-IsDigit, ltb, leb, ◌==◌, if◌then◌else◌, ltb→lt, lt→ltb, leb→le, le→leb, ==_iff,
  Bool-cases, Option-cases, some_inj, length, take, is_empty, any, all, keep, length-append,
  length-take, length-keep-le, All, All-append, All-take, Result, ok, raise, ◌>>=◌, Result-cases,
  Eq, eq_string, eq_pair, string_beq_iff, pair_beq_iff, pair_beq, Text, codes, text_eq,
  text_eq_sound, text_eq_complete, text_eq_refl, text_eq_iff, eq_text, is_space, lstrip,
  rstrip_onto, rstrip, upper_char, find, member, find-All, lower_char, has_prefix, onto_first,
  split_on, strip, upper, lower, replace_char, rstrip_char, ℕ, zero, suc, ◌+◌, ◌-◌, ◌*◌, ◌/◌, ◌%◌,
  ◌^◌, ◌≤◌, ◌<◌, min, max, String, ◌≡◌, refl, sym, ap, ◌∙◌, subst, ◌≢◌, ◌↔◌, ◌⊎◌, inl, inr, Bool,
  true, false, not, ◌&&◌, ◌||◌, Option, none, some, List, [], ◌∷◌, ◌++◌, map, arith, string_eq,
}
use openontology.Json
use openontology.Json.{Json, Fields, dict, no_field, field}
use openontology.Settings.{
  Settings, interceptor_endpoint, enterprise_endpoint, routes_to_enterprise,
}
use openontology.License.Subscriptions.{Subscription}
use openontology.RateGate.{RateGate, pace, retune, x_ratelimit_limit}
use openontology.Metrics.{
  Metrics, count_interceptor_calls, count_interceptor_timeouts, count_interceptor_transport_errors,
  count_interceptor_rejected,
}
use openontology.Mutation.{MutationEnvelope}
use openontology.Command.Plan.{ActionPlan}
use openontology.Interceptor.RetryAfter.{parse_retry_after}
use openontology.Interceptor.Failure.{InterceptorError, Circuit, failure, should_retry}
use openontology.Retry.{Hints, Backoff, Retried, retry_async}
use openontology.World.{
  World, Environment, Answer, timed_out, transport_error, response, Request, effects, count,
}

-- `_CREDENTIAL_KEYS`
abbrev pub credential_keys : List Text
credential_keys =
    codes "license_key"
    ∷ codes "licence_key"
    ∷ codes "license"
    ∷ codes "licence"
    ∷ codes "headers"
    ∷ codes "meta"
    ∷ []

unfoldable pub without : List Text → Fields → Fields
without names no_field = no_field
without names (field k v d) =
    let rest = without names d in if member k names then rest else field k v rest

abbrev pub without_credentials : Fields → Fields
without_credentials = without credential_keys

-- an error of the environment, with no status of its own
abbrev pub transient : (retryable : Bool) → InterceptorError
transient retryable = record {
  permanent = false;
  retryable = retryable;
  status_code = none;
  retry_after = none;
}

-- `_presented_key`
abbrev pub presented_key : Settings → Result InterceptorError Text
presented_key settings = elim settings.license_key [
  | none ↦ raise (transient false)
  | some key ↦ ok key
]

abbrev pub standard_destination : Settings → Result InterceptorError (Text × Text)
standard_destination settings = do
  key ← presented_key settings
  ok (interceptor_endpoint settings, key)

-- `_destination`: the endpoint and the credential for it
unfoldable pub destination : Settings → Subscription → Result InterceptorError (Text × Text)
destination settings subscription =
    let standard = standard_destination settings in
    if not (routes_to_enterprise settings subscription.plan)
    then standard
    else if is_empty (strip settings.enterprise_license_key)
    then standard
    else ok (enterprise_endpoint settings, strip settings.enterprise_license_key)

-- `retry_on=(InterceptorError,)` and the attributes of that exception
abbrev pub interceptor_hints : Hints InterceptorError
interceptor_hints = record {
  caught = λ e. true;
  should_retry = should_retry;
  retry_after = λ e. e.retry_after;
}

module _ {Uuid : Type 0} (env : Environment Uuid) (settings : Settings) where
  -- `_body`
  unfoldable pub body : MutationEnvelope → Option Fields → Json
  body mutation none = env.dump_mutation mutation
  body mutation (some raw) = dict (without_credentials raw)

  -- `_learn_quota`
  unfoldable pub learn_quota : Option Text → Circuit → Circuit
  learn_quota none c = c
  learn_quota (some raw) c =
      if not (settings.interceptor_max_rpm == 0) || is_empty raw
      then c
      else elim (env.parse_int raw) [
        | none ↦ c
        | some quota ↦ record c { gate = retune quota x_ratelimit_limit c.gate }
      ]

  -- `response.json()`, `ActionPlan.model_validate` and the two `except` clauses under them, which
  -- Python tries in this order
  unfoldable pub read_plan :
      Option Json → World Uuid → Result InterceptorError ActionPlan × World Uuid
  read_plan none w = (raise (transient true), w)
  read_plan (some j) w = elim (env.validate_plan j) [
    | some plan ↦ (ok plan, w)
    | none ↦ if env.validation_error_is_value_error then (raise (transient true), w) else (
      raise (record {
        permanent = true;
        retryable = true;
        status_code = some 200;
        retry_after = none;
      }),
      count count_interceptor_rejected w,
    )
  ]

  -- what follows a response
  unfoldable pub read_response :
      ℕ
      → (retry_after rate_limit : Option Text) → Option Json
      → World Uuid
      → Result InterceptorError ActionPlan × World Uuid
  unfolding learn_quota read_plan
  read_response code retry_after rate_limit received w =
      let w' = record w { circuit = learn_quota rate_limit w.circuit } in
      let hint =
        parse_retry_after env.parse_float env.parse_date
          settings.interceptor_retry_after_cap_seconds (env.wall w.now) retry_after in
      let (e, c) = failure settings w.now code hint w'.circuit in
      if code == 200 then read_plan received w' else (raise e, record w' { circuit = c })

  unfoldable pub read_answer : Answer → World Uuid → Result InterceptorError ActionPlan × World Uuid
  unfolding read_response
  read_answer timed_out w = (raise (transient true), count count_interceptor_timeouts w)
  read_answer transport_error w =
      (raise (transient true), count count_interceptor_transport_errors w)
  read_answer (response code retry_after rate_limit received) w =
      read_response code retry_after rate_limit received w

  -- the slot of the gate: the pace, the sleep and the call
  unfoldable pub post : Request → World Uuid → Answer × World Uuid
  post request w =
      let (wait, gate) = pace w.now w.circuit.gate in
      let paced = record w { now = w.now + wait; circuit = record w.circuit { gate = gate } } in
      let counted = count count_interceptor_calls paced in
      (
        env.answer w.calls,
        record counted {
          now = counted.now + env.took w.calls;
          calls = w.calls + 1;
          requests = w.requests ++ request ∷ [];
        },
      )

  -- `round(elapsed * 1000, 3)` where the plan gives no latency of its own, in microseconds
  abbrev with_latency : ℕ → ActionPlan → ActionPlan
  with_latency elapsed plan =
      if plan.latency_ms == 0 then record plan { latency_ms = elapsed } else plan

  abbrev pub finish :
      ℕ
      → Result InterceptorError ActionPlan × World Uuid
      → Result InterceptorError ActionPlan × World Uuid
  finish started (ok plan, w) = (ok (with_latency (w.now - started) plan), w)
  finish started (raise e, w) = (raise e, w)

  abbrev pub call_at :
      MutationEnvelope
      → Option Fields
      → Result InterceptorError (Text × Text)
      → World Uuid
      → Result InterceptorError ActionPlan × World Uuid
  call_at mutation raw (raise e) w = (raise e, w)
  call_at mutation raw (ok (endpoint, presented)) w =
      let (answer, w') =
        post (record { endpoint = endpoint; presented = presented; body = body mutation raw }) w in
      finish w.now (read_answer answer w')

  -- `HttpInterceptorClient.plan`
  unfoldable pub plan :
      MutationEnvelope
      → Subscription
      → Option Fields
      → World Uuid
      → Result InterceptorError ActionPlan × World Uuid
  unfolding post read_answer body
  plan mutation subscription raw w = call_at mutation raw (destination settings subscription) w

  abbrev pub interceptor_backoff : Backoff
  interceptor_backoff = record {
    attempts = settings.max_attempts;
    base_seconds = settings.retry_base_seconds;
    max_seconds = settings.retry_max_seconds;
    retry_after_cap = some settings.interceptor_retry_after_cap_seconds;
  }

  -- `ActionRouter.route` in http mode
  unfoldable pub route :
      MutationEnvelope
      → Subscription
      → Option Fields
      → World Uuid
      → Retried InterceptorError ActionPlan × World Uuid
  route mutation subscription raw =
      retry_async (effects env) interceptor_hints interceptor_backoff
        (plan mutation subscription raw)
