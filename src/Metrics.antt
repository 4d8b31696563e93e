-- ===== src/Metrics.antt =====
-- `Metrics` of services/command-worker/command_worker.py: the counters of the closure loop.
use openontology.Prelude.{eq_string, eq_pair, eq_text, ℕ, ◌+◌}

pub record Metrics : Type 0 where
  pub consumed : ℕ
  pub authorised : ℕ
  pub license_rejected : ℕ
  pub plans_requested : ℕ
  pub plans_failed : ℕ
  pub commands_issued : ℕ
  pub batches_published : ℕ
  pub publish_failures : ℕ
  pub dead_lettered : ℕ
  pub dlq_failures : ℕ
  pub transient_failures : ℕ
  pub consumer_restarts : ℕ
  pub messages_rewound : ℕ
  -- interceptor call outcomes
  pub interceptor_calls : ℕ
  pub interceptor_throttled : ℕ
  pub interceptor_server_errors : ℕ
  pub interceptor_timeouts : ℕ
  pub interceptor_transport_errors : ℕ
  pub interceptor_auth_failures : ℕ
  pub interceptor_rejected : ℕ

-- `Metrics.__init__`
abbrev pub zeros : Metrics
zeros = record {
  consumed = 0;
  authorised = 0;
  license_rejected = 0;
  plans_requested = 0;
  plans_failed = 0;
  commands_issued = 0;
  batches_published = 0;
  publish_failures = 0;
  dead_lettered = 0;
  dlq_failures = 0;
  transient_failures = 0;
  consumer_restarts = 0;
  messages_rewound = 0;
  interceptor_calls = 0;
  interceptor_throttled = 0;
  interceptor_server_errors = 0;
  interceptor_timeouts = 0;
  interceptor_transport_errors = 0;
  interceptor_auth_failures = 0;
  interceptor_rejected = 0;
}

-- `self._metrics.consumed += 1` and so on
abbrev pub count_consumed : Metrics → Metrics
count_consumed m = record m { consumed = m.consumed + 1 }

abbrev pub count_authorised : Metrics → Metrics
count_authorised m = record m { authorised = m.authorised + 1 }

abbrev pub count_license_rejected : Metrics → Metrics
count_license_rejected m = record m { license_rejected = m.license_rejected + 1 }

abbrev pub count_plans_requested : Metrics → Metrics
count_plans_requested m = record m { plans_requested = m.plans_requested + 1 }

abbrev pub count_plans_failed : Metrics → Metrics
count_plans_failed m = record m { plans_failed = m.plans_failed + 1 }

abbrev pub count_commands_issued : Metrics → Metrics
count_commands_issued m = record m { commands_issued = m.commands_issued + 1 }

abbrev pub count_batches_published : Metrics → Metrics
count_batches_published m = record m { batches_published = m.batches_published + 1 }

abbrev pub count_publish_failures : Metrics → Metrics
count_publish_failures m = record m { publish_failures = m.publish_failures + 1 }

abbrev pub count_dead_lettered : Metrics → Metrics
count_dead_lettered m = record m { dead_lettered = m.dead_lettered + 1 }

abbrev pub count_dlq_failures : Metrics → Metrics
count_dlq_failures m = record m { dlq_failures = m.dlq_failures + 1 }

abbrev pub count_transient_failures : Metrics → Metrics
count_transient_failures m = record m { transient_failures = m.transient_failures + 1 }

abbrev pub count_consumer_restarts : Metrics → Metrics
count_consumer_restarts m = record m { consumer_restarts = m.consumer_restarts + 1 }

abbrev pub count_messages_rewound : Metrics → Metrics
count_messages_rewound m = record m { messages_rewound = m.messages_rewound + 1 }

abbrev pub count_interceptor_calls : Metrics → Metrics
count_interceptor_calls m = record m { interceptor_calls = m.interceptor_calls + 1 }

abbrev pub count_interceptor_timeouts : Metrics → Metrics
count_interceptor_timeouts m = record m { interceptor_timeouts = m.interceptor_timeouts + 1 }

abbrev pub count_interceptor_transport_errors : Metrics → Metrics
count_interceptor_transport_errors m = record m {
  interceptor_transport_errors = m.interceptor_transport_errors + 1;
}

abbrev pub count_interceptor_rejected : Metrics → Metrics
count_interceptor_rejected m = record m { interceptor_rejected = m.interceptor_rejected + 1 }
