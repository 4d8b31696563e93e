-- ===== src/Command/Payload.antt =====
-- `CommandPayload` of services/command-worker/command_worker.py and what its construction checks.
-- `issued_at` and `expires_at` are in microseconds, `confidence` in millionths.
use openontology.Prelude.{
  leb, ◌==◌, if◌then◌else◌, length, is_empty, any, eq_string, eq_pair, Text, eq_text, strip, ℕ,
  Bool, false, not, ◌&&◌, ◌||◌, Option, none, some, [], ◌∷◌,
}
use openontology.Json.{Fields}
use openontology.RateGate.{million}
use mathlib.Core.Option
use openontology.Mutation.{Severity, TransitionKind}
use openontology.Command.Vocabulary.{ActionType, ExecutionPriority}

pub record CommandPayload (Uuid : Type 0) : Type 0 where
  pub command_id : Uuid
  pub target_asset_id : Text
  pub action_type : ActionType
  pub execution_priority : ExecutionPriority
  -- provenance
  pub issued_at : ℕ
  pub tenant : Text
  pub license_key_id : Text
  pub source_event_id : Text
  pub plan_id : Text
  pub correlation_id : Text
  -- execution envelope
  pub sequence : ℕ
  pub target_component : Option Text
  pub parameters : Fields
  pub expected_effect : Text
  pub rollback : Option Text
  pub assigned_to : Text
  pub assigned_operator_id : Option Text
  pub deadline_seconds : ℕ
  pub expires_at : ℕ
  pub requires_human_approval : Bool
  pub escalation_required : Bool
  pub confidence : ℕ
  pub trigger_sensor_id : Text
  pub trigger_severity : Severity
  pub trigger_transition : TransitionKind
  pub context_degraded : Bool

abbrev is_alnum : ℕ → Bool
is_alnum c = (leb b'0' c && leb c b'9') || (leb b'A' c && leb c b'Z') || (leb b'a' c && leb c b'z')

abbrev is_separator : ℕ → Bool
is_separator c = c == 32 || c == 9 || c == 10 || c == b':' || c == b'|' || c == b'/'

-- `CommandPayload._identifier_shape`, as a test; `isalnum` is that of ASCII.
unfoldable pub identifier_shape : Text → Bool
identifier_shape [] = false
identifier_shape (c ∷ s) = is_alnum c && not (any is_separator (c ∷ s))

abbrev pub max_deadline : ℕ
max_deadline = 604800

module _ {Uuid : Type 0} where
  -- `str_strip_whitespace=True`
  unfoldable pub stripped : CommandPayload Uuid → CommandPayload Uuid
  stripped c = record c {
    target_asset_id = strip c.target_asset_id;
    tenant = strip c.tenant;
    license_key_id = strip c.license_key_id;
    source_event_id = strip c.source_event_id;
    plan_id = strip c.plan_id;
    correlation_id = strip c.correlation_id;
    target_component = Option.map strip c.target_component;
    expected_effect = strip c.expected_effect;
    rollback = Option.map strip c.rollback;
    assigned_to = strip c.assigned_to;
    assigned_operator_id = Option.map strip c.assigned_operator_id;
    trigger_sensor_id = strip c.trigger_sensor_id;
  }

  -- the field constraints
  unfoldable pub satisfies_contract : CommandPayload Uuid → Bool
  satisfies_contract c =
      identifier_shape c.target_asset_id
      && leb (length c.target_asset_id) 128
      && not (is_empty c.tenant)
      && not (is_empty c.license_key_id)
      && not (is_empty c.source_event_id)
      && not (is_empty c.plan_id)
      && not (is_empty c.correlation_id)
      && leb 1 c.sequence
      && leb c.deadline_seconds max_deadline
      && leb c.confidence million

  -- `CommandPayload(...)`; `none` is a `ValidationError`.
  unfoldable pub construct : CommandPayload Uuid → Option (CommandPayload Uuid)
  unfolding stripped satisfies_contract
  construct c = if satisfies_contract (stripped c) then some (stripped c) else none
