-- ===== src/Tests/Data.antt =====
-- A small deployment of services/command-worker: its settings, its subscriptions, one record, and
-- a broker and an interceptor that answer.
use openontology.Prelude.{
  ◌==◌, if◌then◌else◌, eq_string, eq_pair, Text, codes, text_eq, eq_text, String, true, false, not,
  Option, none, some, [], ◌∷◌, string_eq,
}
use openontology.Json.{number, Fields, no_field, field, str, dict}
use openontology.Settings.{Settings, http}
use openontology.License.Subscriptions.{Subscription}
use openontology.License.Cache.{init}
use openontology.Mutation.{MutationEnvelope, critical, raised}
use openontology.Command.Payload.{CommandPayload}
use openontology.Command.Vocabulary.{isolate, low}
use openontology.Command.Plan.{PlannedAction, ActionPlan}
use openontology.Interceptor.RetryAfter.{finite}
use openontology.Interceptor.Failure.{Circuit}
use openontology.RateGate.{RateGate, unlimited}
use openontology.Metrics.{zeros}
use openontology.World.{World, Environment, response}
use openontology.Worker.Message.{Message}

abbrev pub settings : Settings
settings = record {
  kafka_bootstrap_servers = codes "broker:9092";
  mutations_topic = codes "ontology.mutations";
  commands_topic = codes "ontology.commands";
  commands_dlq_topic = codes "ontology.commands.dlq";
  license_header = codes "X-License-Key";
  license_key = some (codes "own");
  license_cache_ttl_seconds = 300000000;
  license_cache_max_entries = 2;
  allowed_plans = codes "ENTERPRISE";
  interceptor_mode = http;
  interceptor_url = codes "http://std";
  interceptor_path = codes "/i";
  enterprise_interceptor_url = [];
  enterprise_interceptor_tiers = codes "ENTERPRISE";
  enterprise_license_key = [];
  interceptor_max_rpm = 0;
  interceptor_retry_after_cap_seconds = 60000000;
  max_attempts = 3;
  retry_base_seconds = 500000;
  retry_max_seconds = 15000000;
  transient_backoff_max_seconds = 30000000;
  consumer_restart_backoff_seconds = 5000000;
  max_commands = 25;
  interceptor_license_path = codes "/v1/license";
  interceptor_preflight_strict = true;
  interceptor_preflight_attempts = 10;
  default_deadline_seconds = 900;
}

abbrev pub subscription : Subscription
subscription = record {
  key_id = codes "k1";
  key_digest = "d1";
  tenant = codes "acme";
  plan = codes "ENTERPRISE";
  seats = 5;
  active = true;
  expires_at = 1000000000000;
}

abbrev pub digest_of : Text → String
digest_of t = if text_eq t (codes "own") then "d1" else "d0"

abbrev pub find_subscription : String → Option Subscription
find_subscription digest = if string_eq digest "d1" then some subscription else none

abbrev pub mutation : MutationEnvelope
mutation = record {
  event_id = codes "e1";
  schema_version = codes "openontology.mutation.v2";
  asset_id = codes "pump-7";
  transition = raised;
  severity = critical;
  rule = record {
    rule_id = codes "r1";
    sensor_id = codes "s1";
    threshold = number false (codes "80.0");
    unit = some (codes "C");
    observed_value = number false (codes "96.5");
  };
  degraded = false;
  breach_count = 3;
  snapshot_complete = true;
  ontology_context = record {
    asset_name = codes "Pump 7";
    criticality = codes "PROCESS";
    parent_systems = [];
    components = codes "bearing-1" ∷ [];
    assigned_operators = [];
    maintenance_window = none;
  };
}

abbrev pub isolation : PlannedAction
isolation = record {
  sequence = 1;
  target_component = codes "valve-3";
  action = codes "ISOLATE";
  priority = codes "P1";
  assigned_to = codes "role:operator";
  assigned_operator_id = none;
  parameters = no_field;
  expected_effect = codes "stops flow";
  rollback = none;
  deadline_seconds = 0;
}

abbrev pub isolation_plan : ActionPlan
isolation_plan = record {
  plan_id = codes "plan-1";
  event_id = codes "e1";
  asset_id = codes "pump-7";
  tenant = codes "acme";
  model = codes "m";
  confidence = 90;
  reasoning_summary = codes "because";
  commands = isolation ∷ [];
  escalation = record { required = false; notify = []; reason = []; sla_seconds = 0 };
  evidence = [];
  latency_ms = 5;
}

abbrev pub command : CommandPayload Text
command = record {
  command_id = codes "id";
  target_asset_id = codes "pump-7";
  action_type = isolate;
  execution_priority = low;
  issued_at = 1000;
  tenant = codes "acme";
  license_key_id = codes "k1";
  source_event_id = codes "e1";
  plan_id = codes "plan-1";
  correlation_id = codes "id";
  sequence = 1;
  target_component = none;
  parameters = no_field;
  expected_effect = [];
  rollback = none;
  assigned_to = codes "role:operator";
  assigned_operator_id = none;
  deadline_seconds = 900;
  expires_at = 900001000;
  requires_human_approval = true;
  escalation_required = false;
  confidence = 90;
  trigger_sensor_id = codes "s1";
  trigger_severity = critical;
  trigger_transition = raised;
  context_degraded = false;
}

abbrev pub payload : Fields
payload = field (codes "event_id") (str (codes "e1")) no_field

abbrev pub message : Message
message = record { value = some (123 ∷ []); key = none; headers = [] }

-- Every send is acknowledged but the first, which is lost; the interceptor answers with the plan.
abbrev pub env : Environment Text
env = record {
  random = λ n. 0;
  answer = λ n. response 200 none none (some (dict no_field));
  took = λ n. 1000;
  acknowledged = λ n. not (n == 0);
  persisted = λ n. false;
  fresh_id = λ n. codes "id";
  wall = λ now. now;
  registry = λ now. find_subscription;
  sha256 = digest_of;
  uuid5 = λ name. name;
  decode_utf8 = λ b. some (codes "own");
  loads = λ s. some (dict payload);
  parse_float = λ s. some (finite 7000000);
  parse_date = λ s. none;
  parse_int = λ s. none;
  validate_mutation = λ j. some mutation;
  validate_plan = λ j. some isolation_plan;
  validation_error_is_value_error = true;
  dump_mutation = λ m. dict no_field;
}

abbrev pub gate : RateGate
gate = record {
  margin = 900000;
  max_concurrency = 4;
  rpm = 0;
  interval = 0;
  next_at = 0;
  source = unlimited;
  waits = 0;
  wait_seconds = 0;
  cooldowns = 0;
  cooldown_seconds = 0;
}

abbrev pub circuit : Circuit
circuit = record { gate = gate; metrics = zeros }

abbrev pub world : World Text
world = record {
  now = 1000;
  draws = 0;
  calls = 0;
  sends = 0;
  cache = init 300000000 2;
  circuit = circuit;
  started = true;
  requests = [];
  commands = [];
  dead_letters = [];
}
