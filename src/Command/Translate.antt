-- ===== src/Command/Translate.antt =====
-- `translate_plan` of services/command-worker/command_worker.py. `uuid5` stands for the name-based
-- UUID in the worker's namespace; `issued_at` is the reading of the wall clock.
pub mod Guarantees
use openontology.Prelude.{
  ok_inj, >>=-eq-ok, decimal, decimal_inj, IsDigit, decimal-IsDigit, ltb, leb, ◌==◌, if◌then◌else◌,
  ltb→lt, lt→ltb, leb→le, le→leb, ==_iff, Bool-cases, Option-cases, some_inj, length, take,
  is_empty, any, all, keep, length-append, length-take, length-keep-le, All, All-append, All-take,
  Result, ok, raise, ◌>>=◌, Result-cases, Eq, eq_string, eq_pair, string_beq_iff, pair_beq_iff,
  pair_beq, Text, codes, text_eq, text_eq_sound, text_eq_complete, text_eq_refl, text_eq_iff,
  eq_text, is_space, lstrip, rstrip_onto, rstrip, upper_char, find, member, find-All, lower_char,
  has_prefix, onto_first, split_on, strip, upper, lower, replace_char, rstrip_char, ℕ, zero, suc,
  ◌+◌, ◌-◌, ◌*◌, ◌/◌, ◌%◌, ◌^◌, ◌≤◌, ◌<◌, min, max, String, ◌≡◌, refl, sym, ap, ◌∙◌, subst, ◌≢◌,
  ◌↔◌, ◌⊎◌, inl, inr, Bool, true, false, not, ◌&&◌, ◌||◌, Option, none, some, List, [], ◌∷◌, ◌++◌,
  map, arith, string_eq,
}
use openontology.Clock.{second}
use openontology.Settings.{Settings}
use openontology.Mutation.{MutationEnvelope}
use openontology.License.Subscriptions.{Subscription, autonomous_execution_allowed}
use openontology.Command.Vocabulary.{
  ActionType, ExecutionPriority, is_irreversible, parse_action, parse_priority,
}
use openontology.Command.Plan.{PlannedAction, ActionPlan}
use openontology.Command.Payload.{CommandPayload, construct}
use openontology.Command.Identity.{command_name}

-- `PermanentMessageError.reason`, here and in the rest of the pipeline.
pub data PermanentReason : Type 0 where
  unknown_action_type unknown_execution_priority command_contract_violation : PermanentReason
  empty_action_plan mutation_invalid interceptor_rejected : PermanentReason

abbrev non_empty : Text → Option Text
non_empty s = if is_empty s then none else some s

-- `planned.deadline_seconds or settings.default_deadline_seconds`
abbrev pub deadline_or_default : ℕ → ℕ → ℕ
deadline_or_default deadline default = if deadline == 0 then default else deadline

-- `requires_approval`
abbrev pub requires_approval : Subscription → ActionType → Bool
requires_approval subscription action =
    not (autonomous_execution_allowed subscription && not (is_irreversible action))

abbrev pub or_empty :
    {Uuid : Type 0}
    → List (CommandPayload Uuid)
    → Result PermanentReason (List (CommandPayload Uuid))
or_empty [] = raise empty_action_plan
or_empty (command ∷ commands) = ok (command ∷ commands)

module _ {Uuid : Type 0} (uuid5 : Text → Uuid) (mutation : MutationEnvelope) (plan : ActionPlan)
    (subscription : Subscription) (settings : Settings) (correlation_id : Text)
    (issued_at : ℕ) where
  -- the arguments of `CommandPayload(...)` for one step of the plan
  abbrev pub draft : ℕ → PlannedAction → ActionType → ExecutionPriority → CommandPayload Uuid
  draft index planned action priority =
      let deadline =
        deadline_or_default planned.deadline_seconds settings.default_deadline_seconds in
      record {
        command_id = uuid5 (command_name mutation.event_id index action);
        target_asset_id = mutation.asset_id;
        action_type = action;
        execution_priority = priority;
        issued_at = issued_at;
        tenant = subscription.tenant;
        license_key_id = subscription.key_id;
        source_event_id = mutation.event_id;
        plan_id = plan.plan_id;
        correlation_id = correlation_id;
        sequence = index;
        target_component = non_empty planned.target_component;
        parameters = planned.parameters;
        expected_effect = planned.expected_effect;
        rollback = planned.rollback;
        assigned_to = planned.assigned_to;
        assigned_operator_id = planned.assigned_operator_id;
        deadline_seconds = deadline;
        expires_at = issued_at + deadline * second;
        requires_human_approval = requires_approval subscription action;
        escalation_required = plan.escalation.required;
        confidence = plan.confidence;
        trigger_sensor_id = mutation.rule.sensor_id;
        trigger_severity = mutation.severity;
        trigger_transition = mutation.transition;
        context_degraded = mutation.degraded;
      }

  abbrev pub or_violation :
      Option (CommandPayload Uuid) → Result PermanentReason (CommandPayload Uuid)
  or_violation none = raise command_contract_violation
  or_violation (some command) = ok command

  unfoldable pub step_of :
      ℕ
      → PlannedAction
      → Option ActionType
      → Option ExecutionPriority
      → Result PermanentReason (CommandPayload Uuid)
  step_of index planned none priority = raise unknown_action_type
  step_of index planned (some action) none = raise unknown_execution_priority
  step_of index planned (some action) (some priority) =
      or_violation (construct (draft index planned action priority))

  -- one round of the loop
  unfoldable pub translate_step : ℕ → PlannedAction → Result PermanentReason (CommandPayload Uuid)
  unfolding step_of
  translate_step index planned =
      step_of index planned (parse_action planned.action) (parse_priority planned.priority)

  -- the loop, from `index` on
  unfoldable pub translate_from :
      ℕ → List PlannedAction → Result PermanentReason (List (CommandPayload Uuid))
  translate_from index [] = ok []
  translate_from index (planned ∷ rest) = do
    command ← translate_step index planned
    commands ← translate_from (index + 1) rest
    ok (command ∷ commands)

  -- `translate_plan`
  unfoldable pub translate_plan : Result PermanentReason (List (CommandPayload Uuid))
  translate_plan = do
    commands ← translate_from 1 (take settings.max_commands plan.commands)
    or_empty commands
