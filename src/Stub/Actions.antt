-- ===== src/Stub/Actions.antt =====
-- The rule table of `StubInterceptor` in services/command-worker/command_worker.py.
use openontology.Prelude.{
  if◌then◌else◌, is_empty, eq_string, eq_pair, Text, codes, text_eq, eq_text, ℕ, false, Option,
  none, some, List, [], ◌∷◌, ◌++◌,
}
use openontology.Json.{Json, Fields, no_field, field, number, str}
use openontology.Settings.{Settings}
use openontology.Mutation.{
  Severity, TransitionKind, Operator, SystemNode, MutationEnvelope, primary_operator,
  immediate_parent,
}
use openontology.Command.Plan.{PlannedAction}

-- `x or default` on an optional text
abbrev pub text_or : Option Text → Text → Text
text_or none default = default
text_or (some t) default = if is_empty t then default else t

-- the name of the parent, if there is one and it is named
abbrev pub parent_name : Option SystemNode → Option Text
parent_name none = none
parent_name (some node) = if is_empty node.name then none else some node.name

-- `_component_for`
unfoldable pub component_for : MutationEnvelope → Text
unfolding immediate_parent
component_for mutation = elim mutation.ontology_context.components [
  | component ∷ rest ↦ component
  | [] ↦ elim (parent_name (immediate_parent mutation.ontology_context)) [
    | some name ↦ name
    | none ↦
        if is_empty mutation.ontology_context.asset_name
        then mutation.asset_id
        else mutation.ontology_context.asset_name
  ]
]

-- `operator.name if operator and operator.name else "duty-engineer"`
abbrev pub assignee_of : Option Operator → Text
assignee_of none = codes "duty-engineer"
assignee_of (some operator) =
    if is_empty operator.name then codes "duty-engineer" else operator.name

abbrev pub operator_id_of : Option Operator → Option Text
operator_id_of none = none
operator_id_of (some operator) = some operator.operator_id

-- the texts in a row
abbrev pub concat : List Text → Text
concat [] = []
concat (t ∷ ts) = t ++ concat ts

module _ (format_g : Json → Text) (settings : Settings) (mutation : MutationEnvelope) where
  abbrev pub component : Text
  component = component_for mutation

  abbrev pub sensor : Text
  sensor = mutation.rule.sensor_id

  abbrev pub unit : Text
  unit = text_or mutation.rule.unit []

  abbrev pub observed_text : Text
  observed_text = format_g mutation.rule.observed_value ++ unit

  abbrev pub threshold_text : Text
  threshold_text = format_g mutation.rule.threshold ++ unit

  -- `sensor_id` and `observed_value`, before the other parameters
  abbrev observed_and : Fields → Fields
  observed_and rest =
      field (codes "sensor_id") (str sensor)
        (field (codes "observed_value") mutation.rule.observed_value rest)

  -- these with `threshold` and `unit`
  abbrev reading_and : Fields → Fields
  reading_and rest =
      observed_and
        (field (codes "threshold") mutation.rule.threshold (field (codes "unit") (str unit) rest))

  -- `PlannedAction(...)` on the mutation's component, for the operator on duty
  abbrev pub step :
      (sequence : ℕ) → (action priority : Text) → Fields → Text → Option Text → ℕ → PlannedAction
  step sequence action priority parameters expected_effect rollback deadline = record {
    sequence = sequence;
    target_component = component;
    action = action;
    priority = priority;
    assigned_to = assignee_of (primary_operator mutation.ontology_context);
    assigned_operator_id = operator_id_of (primary_operator mutation.ontology_context);
    parameters = parameters;
    expected_effect = expected_effect;
    rollback = rollback;
    deadline_seconds = deadline;
  }

  abbrev pub acknowledgement : List PlannedAction
  acknowledgement =
      step 1 (codes "ACKNOWLEDGE") (codes "LOW") (observed_and no_field)
        (concat (
          codes "Close the "
          ∷ sensor
          ∷ codes " alarm on "
          ∷ mutation.asset_id
          ∷ codes "; the reading is back inside limits."
          ∷ []))
        none settings.default_deadline_seconds
      ∷ []

  abbrev pub notification : List PlannedAction
  notification =
      step 1 (codes "NOTIFY") (codes "LOW") (observed_and no_field)
        (concat (
          codes "Raise "
          ∷ mutation.asset_id
          ∷ codes " "
          ∷ sensor
          ∷ codes " on the shift handover log."
          ∷ []))
        none settings.default_deadline_seconds
      ∷ []

  abbrev pub shutdown_step : PlannedAction
  shutdown_step =
      step 1 (codes "SHUTDOWN") (codes "CRITICAL")
        (reading_and (field (codes "ramp_down_seconds") (number false (codes "60")) no_field))
        (concat (
          codes "Remove thermal load from "
          ∷ component
          ∷ codes "; "
          ∷ sensor
          ∷ codes " is "
          ∷ observed_text
          ∷ codes " against a "
          ∷ threshold_text
          ∷ codes " ceiling."
          ∷ []))
        (some (
          codes
            "Restart only after the bearing temperature is below 80% of the ceiling for 10 minutes."))
        300

  abbrev pub isolate_step : PlannedAction
  isolate_step =
      step 1 (codes "ISOLATE") (codes "CRITICAL")
        (reading_and
          (field (codes "isolation_mode") (str (codes "electrical_and_process")) no_field))
        (concat (
          codes "Isolate "
          ∷ component
          ∷ codes " before secondary damage; "
          ∷ sensor
          ∷ codes " is "
          ∷ observed_text
          ∷ codes " against a "
          ∷ threshold_text
          ∷ codes " limit."
          ∷ []))
        (some (codes "Restore only under a permit to work, after a vibration survey.")) 300

  abbrev pub maintenance_step : PlannedAction
  maintenance_step =
      step 2 (codes "SCHEDULE_MAINTENANCE") (codes "HIGH")
        (field (codes "window")
          (str (text_or mutation.ontology_context.maintenance_window (codes "next_available")))
          (field (codes "work_type") (str (codes "root_cause_inspection")) no_field))
        (concat (
          codes "Book intrusive inspection of "
          ∷ component
          ∷ codes " in the next maintenance window."
          ∷ []))
        none 86400

  abbrev pub derating : List PlannedAction
  derating =
      step 1 (codes "SHIFT_SPEED") (codes "HIGH")
        (reading_and (
          field (codes "target_setpoint_pct") (number false (codes "80"))
            (field (codes "ramp_seconds") (number false (codes "120")) no_field)))
        (concat (
          codes "Derate "
          ∷ component
          ∷ codes " to 80% to pull "
          ∷ sensor
          ∷ codes " back under "
          ∷ threshold_text
          ∷ codes "."
          ∷ []))
        (some (
          codes
            "Return to the original setpoint once the reading holds below the limit for 15 minutes."))
        600
      ∷ step 2 (codes "INSPECT") (codes "HIGH")
          (field (codes "method") (str (codes "walkdown"))
            (field (codes "focus") (str sensor) no_field))
          (concat (
            codes "Confirm whether the "
            ∷ sensor
            ∷ codes " excursion on "
            ∷ component
            ∷ codes " is real or instrumentation drift."
            ∷ []))
          none 3600
      ∷ []

  abbrev pub inspection : List PlannedAction
  inspection =
      step 1 (codes "INSPECT") (codes "HIGH")
        (field (codes "reason") (str (codes "degraded_context"))
          (field (codes "sensor_id") (str sensor) no_field))
        (concat (
          codes "Graph context for "
          ∷ mutation.asset_id
          ∷ codes " is incomplete; verify on site before actuating."
          ∷ []))
        none 1800
      ∷ []

  -- the rule table, on the severity of a mutation that is not cleared
  abbrev pub by_severity : Severity → List PlannedAction
  by_severity Severity.critical =
      (if text_eq sensor (codes "temperature_celsius") then shutdown_step else isolate_step)
      ∷ maintenance_step
      ∷ []
  by_severity Severity.high = derating
  by_severity Severity.info = notification

  -- the rule table
  unfoldable pub rules : TransitionKind → Severity → List PlannedAction
  rules TransitionKind.cleared severity = acknowledgement
  rules TransitionKind.raised severity = by_severity severity
  rules TransitionKind.escalated severity = by_severity severity
  rules TransitionKind.sustained severity = by_severity severity
