-- ===== src/Settings.antt =====
-- `Settings` of services/command-worker/command_worker.py: the fields that the modelled code
-- reads, its properties and `model_post_init`. Seconds are counted in clock ticks.
use openontology.Prelude.{
  ℕ, Bool, true, false, not, ◌&&◌, Option, none, some, List, [], ◌++◌, map, Text, text_eq, is_empty,
  keep, member, strip, upper, rstrip_char, split_on, if◌then◌else◌,
}
use openontology.License.Plans.{normalise_plan}

pub data InterceptorMode : Type 0 where
  stub http : InterceptorMode

pub record Settings : Type 0 where
  -- kafka
  pub kafka_bootstrap_servers : Text
  pub mutations_topic : Text
  pub commands_topic : Text
  pub commands_dlq_topic : Text
  -- commercial gatekeeper
  pub license_header : Text
  pub license_key : Option Text
  pub license_cache_ttl_seconds : ℕ
  pub license_cache_max_entries : ℕ
  pub allowed_plans : Text
  -- AI interceptor routing
  pub interceptor_mode : InterceptorMode
  pub interceptor_url : Text
  pub interceptor_path : Text
  pub enterprise_interceptor_url : Text
  pub enterprise_interceptor_tiers : Text
  pub enterprise_license_key : Text
  pub interceptor_license_path : Text
  pub interceptor_max_rpm : ℕ
  pub interceptor_retry_after_cap_seconds : ℕ
  pub interceptor_preflight_strict : Bool
  pub interceptor_preflight_attempts : ℕ
  -- resilience
  pub max_attempts : ℕ
  pub retry_base_seconds : ℕ
  pub retry_max_seconds : ℕ
  pub transient_backoff_max_seconds : ℕ
  pub consumer_restart_backoff_seconds : ℕ
  -- command shaping
  pub max_commands : ℕ
  pub default_deadline_seconds : ℕ

-- `[f(item) for item in value.split(",") if item.strip()]`
abbrev pub split_list : (Text → Text) → Text → List Text
split_list f value = map f (keep (λ item. not (is_empty (strip item))) (split_on b',' value))

abbrev pub bootstrap_servers : Settings → List Text
bootstrap_servers s = split_list strip s.kafka_bootstrap_servers

abbrev pub entitled_plans : Settings → List Text
entitled_plans s = split_list normalise_plan s.allowed_plans

abbrev pub interceptor_endpoint : Settings → Text
interceptor_endpoint s = s.interceptor_url ++ s.interceptor_path

abbrev pub interceptor_license_endpoint : Settings → Text
interceptor_license_endpoint s = s.interceptor_url ++ s.interceptor_license_path

abbrev pub enterprise_endpoint : Settings → Text
enterprise_endpoint s =
    if is_empty s.enterprise_interceptor_url
    then []
    else rstrip_char b'/' s.enterprise_interceptor_url ++ s.interceptor_path

abbrev pub enterprise_tiers : Settings → List Text
enterprise_tiers s = split_list (λ tier. upper (strip tier)) s.enterprise_interceptor_tiers

unfoldable pub routes_to_enterprise : Settings → Text → Bool
routes_to_enterprise s tier =
    not (is_empty (enterprise_endpoint s)) && member (upper (strip tier)) (enterprise_tiers s)

pub data SettingsError : Type 0 where
  consumes_its_own_output dlq_is_commands no_broker no_plan key_missing : SettingsError

abbrev mode_needs_key : InterceptorMode → Option Text → Bool
mode_needs_key http none = true
mode_needs_key _ _ = false

-- `model_post_init`: the error that it raises, if any.
unfoldable pub model_post_init : Settings → Option SettingsError
model_post_init s =
    if text_eq s.commands_topic s.mutations_topic
    then some consumes_its_own_output
    else if text_eq s.commands_dlq_topic s.commands_topic
    then some dlq_is_commands
    else if is_empty (bootstrap_servers s)
    then some no_broker
    else if is_empty (entitled_plans s)
    then some no_plan
    else if mode_needs_key s.interceptor_mode s.license_key
    then some key_missing
    else none
