-- ===== src/Tests/Licensing.antt =====
-- Runs of the licence middleware of services/ai-interceptor/app/security.py and of the preflight of
-- services/command-worker/command_worker.py.
use openontology.Prelude.{
  if◌then◌else◌, Bool-cases, some_inj, eq_string, eq_pair, Text, codes, text_eq, eq_text, strip,
  upper, lower, replace_char, ℕ, ◌+◌, ◌*◌, ◌≤◌, String, ◌≡◌, refl, sym, ap, ◌↔◌, ◌⊎◌, inl, inr,
  true, false, none, some, [], ◌∷◌, arith, string_eq,
}
use openontology.Json.{Json, Fields, no_field, field, str, boolean, list, item, no_item, dict}
use openontology.Quota.{or_new}
use openontology.Quota.Window.{in_window}
use openontology.OrderedDict.{get}
use openontology.Middleware.{
  confirm, License, LicenseKeyMiddleware, State, Request, lookup, is_exempt, dispatch,
}
use openontology.Middleware.Decisions.{
  reaches, IsLicensed, Accounts, dispatch-reaches_iff, dispatch-Accounts,
}
use openontology.Middleware.Throughput.{admissions, admissions-in_window}
use openontology.Middleware.Patience.{dispatch-retry_after}
use openontology.World.{Environment, response}
use openontology.Preflight.Local.{pending, Boot}
use openontology.Preflight.Loop.{run_preflight_until_ready}
use openontology.Preflight.Agreement.{IsAgreed}
use openontology.Preflight.Strict.{Attempted, run_preflight_until_ready-strict}
use openontology.Tests.Data.{settings, env, world}

-- a licence for one request a minute, in milliseconds
abbrev licence : License
licence = record {
  key_id = "k1";
  key_digest = "d1";
  tenant = codes "acme";
  tier = codes "ENTERPRISE";
  quota_per_minute = 1;
  expires_at = 1000000;
  features = codes "ai.intercept" ∷ [];
}

abbrev middleware : LicenseKeyMiddleware ℕ ℕ
middleware = record {
  registry = ("d1", licence) ∷ [];
  exempt = codes "/healthz" ∷ [];
  feature_by_prefix = (codes "/v1/intercept", codes "ai.intercept") ∷ [];
  window = 60000;
  second = 1000;
  sha256 = λ t. if text_eq t (codes "own") then "d1" else "d0";
  wall = λ t. t;
  call_next = λ l request calls. (calls, calls + 1);
}

abbrev request : Request
request = record {
  path = codes "/v1/intercept";
  license_header = none;
  authorization = some (codes "Bearer own");
}

abbrev idle : State ℕ
idle = record { hits = []; license_rejections = []; quota_decisions = []; app = 0 }

abbrev full : State ℕ
full = record idle { hits = ("k1", 70000 ∷ []) ∷ [] }

dispatch-reaches_iff_example : (reaches (dispatch middleware 100000 request idle).0 ≡ true) ↔ (
    (is_exempt middleware request.path ≡ true)
    ⊎ ((l : License) × IsLicensed middleware 100000 request idle l))
dispatch-reaches_iff_example = dispatch-reaches_iff middleware 100000 request idle

dispatch-Accounts_example : Accounts full (dispatch middleware 100000 request full)
dispatch-Accounts_example = dispatch-Accounts middleware 100000 request full

one_quota :
    (presented : String) (l : License)
    → lookup middleware.registry presented ≡ some l
    → l.key_id ≡ "k1"
    → l.quota_per_minute ≡ 1
unfolding lookup get
one_quota presented l found same = elim (Bool-cases (string_eq "d1" presented)) [
  | inl there ↦
      let once = rw (there, get) at found in
      let found' : some licence ≡ some l = rw (there, confirm) at once in
      ap (λ (r : License). r.quota_per_minute) (sym (some_inj found'))
  | inr missing ↦ absurd (let found' = rw (missing, get) at found in cc)
]

admissions-in_window_example :
    in_window 60000 110000
      (admissions middleware "k1" 100000 ((0, request) ∷ (5000, request) ∷ []) idle)
    ≤ 1
admissions-in_window_example =
    admissions-in_window middleware "k1" 1 one_quota 100000 ((0, request) ∷ (5000, request) ∷ [])
      idle 110000 refl

dispatch-retry_after_example :
    reaches
      (dispatch middleware
        (100000 + 31 * 1000)
        request
        (dispatch middleware 100000 request full).1).0
    ≡ true
unfolding dispatch strip lower get openontology.Quota.check
dispatch-retry_after_example =
    dispatch-retry_after middleware 100000 (codes "own") licence request full 31 refl refl refl
      (omega arith) (omega arith) (omega arith)

-- An interceptor that knows the key.
abbrev introspection : Fields
introspection = field (codes "valid") (boolean true) (
    field (codes "tenant") (str (codes "acme")) (
      field (codes "tier") (str (codes "enterprise"))
        (field (codes "features") (list (item (str (codes "ai.intercept")) no_item)) no_field)))

abbrev ready_env : Environment Text
ready_env = record env { answer = λ n. response 200 none none (some (dict introspection)) }

abbrev to_str : Json → Text
to_str j = codes "None"

abbrev boot : Boot Text
boot = record {
  status = record {
    state = pending;
    attempts = 0;
    retryable = true;
    worker_tenant = none;
    worker_plan = none;
    interceptor_tenant = none;
    interceptor_tier = none;
    quota_per_minute = none;
  };
  proceed = false;
  world = world;
}

run_preflight_until_ready-strict_example :
    (b' : Boot Text) × Attempted ready_env to_str settings boot b'
    × IsAgreed ready_env to_str settings b'
unfolding run_preflight_until_ready openontology.License.Gatekeeper.extract_key
    openontology.License.Gatekeeper.first_key openontology.License.Gatekeeper.candidates
    openontology.Json.get strip openontology.License.Cache.resolve get
    openontology.License.Subscriptions.is_expired openontology.License.Plans.normalise_plan
    replace_char upper
run_preflight_until_ready-strict_example =
    run_preflight_until_ready-strict ready_env to_str settings boot refl refl refl
