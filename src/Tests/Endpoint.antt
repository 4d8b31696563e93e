-- ===== src/Tests/Endpoint.antt =====
-- Runs of the paid endpoint.
use openontology.Prelude.{
  ok, eq_string, eq_pair, codes, eq_text, ◌≡◌, refl, none, some, [], ◌∷◌, arith,
}
use openontology.Engine.Invoke.{timeout}
use openontology.Service.Gate.{
  EnterpriseSubscription, SlidingWindowQuota, LicensedRequest, feature_graphrag,
  verify_enterprise_subscription,
}
use openontology.Service.Commands.{CommandActionResponse, build_command_response}
use openontology.Service.Intercept.{Application, Backend, intercept}
use openontology.Service.Replay.{intercept-replays}
use openontology.Tests.Engine.{issued}
use openontology.Tests.Graph.{hot, fed, settings, vector_store, wording}
use openontology.Engine.Deterministic.{deterministic}
use openontology.Engine.Reasoning.{action_plan}

abbrev acme : EnterpriseSubscription
acme = record {
  key_id = codes "key-1";
  key_digest = codes "k-123";
  tenant = codes "acme";
  tier = codes "premium";
  quota_per_minute = 2;
  expires_at = 9000;
  features = feature_graphrag ∷ [];
}

abbrev request : LicensedRequest
request = record {
  license_key = none;
  credentials = some (codes " k-123 ");
  registry = (codes "k-123", acme) ∷ [];
  monotonic = 70000000;
  wall = 5000;
}

abbrev quota : SlidingWindowQuota
quota = record { window = 60000000; hits = [] }

abbrev backend : Backend
backend = record {
  digest = λ key. key;
  client = deterministic wording 12;
  vector_store = vector_store;
  settings = settings;
}

abbrev app : Application
app = record { quota = quota; cache = record { max_entries = 2; entries = [] } }

-- agents that never answer
abbrev silent : Backend
silent = record backend {
  client = record {
    isolator = λ analysis n. timeout;
    planner = λ analysis verdict hits n. timeout;
  };
}

verified : (verify_enterprise_subscription (λ key. key) request quota).0 ≡ ok acme
unfolding verify_enterprise_subscription
verified = refl

abbrev command : CommandActionResponse
command = build_command_response (codes "cmd_1") hot issued (codes "acme")

answered_once : (intercept backend request (codes "cmd_1") hot app).0 ≡ ok command
unfolding intercept action_plan
answered_once = refl

-- The same event with another payload, and with agents that do not answer any more.
intercept-replays_example :
    (intercept silent request
      (codes "cmd_2")
      fed
      (record (intercept backend request (codes "cmd_1") hot app).1 { quota = quota })).0
    ≡ ok command
intercept-replays_example =
    intercept-replays backend request (codes "cmd_1") hot app command silent request (codes "cmd_2")
      fed quota acme acme (omega arith) verified answered_once verified refl refl
