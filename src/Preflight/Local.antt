-- ===== src/Preflight/Local.antt =====
-- What the preflight of services/command-worker/command_worker.py keeps, and its two questions: to
-- the worker's own gate and to the interceptor.
use openontology.Prelude.{
  leb, ◌==◌, if◌then◌else◌, Result, ok, raise, eq_string, eq_pair, Text, codes, eq_text, ℕ, ◌+◌,
  Bool, true, false, ◌||◌, Option, none, some, List, [], ◌∷◌, ◌++◌,
}
use openontology.Json.{Json, Fields, no_field, field, null, dict, get, truthy}
use openontology.Settings.{Settings, interceptor_license_endpoint}
use openontology.License.Subscriptions.{Subscription}
use openontology.License.Cache.{LicenseCache}
use openontology.License.Gatekeeper.{LicenseRejected, authorize}
use openontology.World.{World, Environment, Answer, timed_out, transport_error, response}

-- `PreflightStatus.state`
pub data PreflightState : Type 0 where
  pending skipped passed failed : PreflightState

pub record PreflightStatus : Type 0 where
  pub state : PreflightState
  pub attempts : ℕ
  pub retryable : Bool
  pub worker_tenant : Option Text
  pub worker_plan : Option Text
  pub interceptor_tenant : Option Text
  pub interceptor_tier : Option Text
  pub quota_per_minute : Option ℕ

-- what iterating over a JSON value can raise
pub data TypeError : Type 0 where
  not_iterable : TypeError

-- The state of the boot: the status, the event that lets the consumers start, and the world.
pub record Boot (Uuid : Type 0) : Type 0 where
  pub status : PreflightStatus
  pub proceed : Bool
  pub world : World Uuid

-- `_fail`
unfoldable pub fail : Bool → PreflightStatus → PreflightStatus
fail retryable s = record s { state = failed; retryable = retryable }

-- `response.status_code >= 500 or response.status_code == 429`
abbrev pub is_transient : ℕ → Bool
is_transient code = leb 500 code || code == 429

-- `response.json()` and the test for an object
abbrev pub read_object : Option Json → Result Bool Fields
read_object (some (dict d)) = ok d
read_object _ = raise true

-- what `_introspect` makes of the response: the object, or whether its failure is retryable
unfoldable pub read_introspection : Answer → Result Bool Fields
read_introspection timed_out = raise true
read_introspection transport_error = raise true
read_introspection (response code retry_after rate_limit body) =
    if code == 200 then read_object body else raise (is_transient code)

abbrev pub field_names : Fields → List Text
field_names no_field = []
field_names (field k v d) = k ∷ field_names d

-- `introspection.get("valid", False)`, as a test
abbrev pub is_valid : Fields → Bool
is_valid d = elim (get (codes "valid") d) [ none ↦ false | some j ↦ truthy j ]

module _ {Uuid : Type 0} (env : Environment Uuid) (to_str : Json → Text) (settings : Settings) where
  -- what `_resolve_local` does with the gate's decision
  unfoldable pub decide :
      Boot Uuid
      → Result LicenseRejected Subscription × LicenseCache
      → Option Subscription × Boot Uuid
  unfolding fail
  decide b (raise e, cache) =
      (none, record b { world = record b.world { cache = cache }; status = fail false b.status })
  decide b (ok s, cache) = (
    some s,
    record b {
      world = record b.world { cache = cache };
      status = record b.status { worker_tenant = some s.tenant; worker_plan = some s.plan };
    },
  )

  -- `self._gatekeeper.authorize({})`
  unfoldable pub authorize_self : World Uuid → Result LicenseRejected Subscription × LicenseCache
  unfolding authorize
  authorize_self w =
      authorize env.sha256 (env.registry w.now) settings w.now (env.wall w.now) true (dict no_field)
        w.cache

  -- `_resolve_local`
  unfoldable pub resolve_local : Boot Uuid → Option Subscription × Boot Uuid
  unfolding authorize_self decide
  resolve_local b = decide b (authorize_self b.world)

  -- `self._client.get`
  unfoldable pub get_license : Text → World Uuid → Answer × World Uuid
  get_license key w = (
    env.answer w.calls,
    record w {
      now = w.now + env.took w.calls;
      calls = w.calls + 1;
      requests =
          w.requests
          ++ record {
            endpoint = interceptor_license_endpoint settings;
            presented = key;
            body = null;
          }
            ∷ [];
    },
  )

  -- what `_introspect` returns for the response, which the world `w` follows
  unfoldable pub conclude : Boot Uuid → World Uuid → Result Bool Fields → Option Fields × Boot Uuid
  unfolding fail
  conclude b w (ok d) = (some d, record b { world = w })
  conclude b w (raise retryable) = (none, record b { world = w; status = fail retryable b.status })

  -- `_introspect`, from the key on
  unfoldable pub introspect_with : Option Text → Boot Uuid → Option Fields × Boot Uuid
  unfolding get_license read_introspection conclude fail
  introspect_with none b = (none, record b { status = fail false b.status })
  introspect_with (some key) b =
      let (answer, w) = get_license key b.world in conclude b w (read_introspection answer)

  -- `_introspect`
  unfoldable pub introspect : Boot Uuid → Option Fields × Boot Uuid
  unfolding introspect_with
  introspect b = introspect_with settings.license_key b
