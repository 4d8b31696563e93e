-- ===== src/Stub/Planner.antt =====
-- `StubInterceptor.plan` of services/command-worker/command_worker.py, from the rule table on.
use openontology.Prelude.{
  decimal, if◌then◌else◌, length, take, is_empty, keep, eq_string, eq_pair, Text, codes, text_eq,
  eq_text, member, ℕ, ◌+◌, Bool, true, false, not, ◌||◌, List, [], ◌∷◌, ◌++◌, map,
}
use openontology.Json.{Json}
use openontology.Settings.{Settings}
use openontology.License.Subscriptions.{Subscription}
use openontology.Mutation.{Severity, TransitionKind, Operator, MutationEnvelope, escalation_chain}
use openontology.Command.Plan.{PlannedAction, ActionPlan}
use openontology.Stub.Actions.{
  concat, component, sensor, observed_text, threshold_text, inspection, rules,
}

abbrev pub is_critical : Severity → Bool
is_critical Severity.critical = true
is_critical _ = false

-- `action.action in {"SHUTDOWN", "ISOLATE"}`
abbrev pub is_forceful : PlannedAction → Bool
is_forceful a = member a.action (codes "SHUTDOWN" ∷ codes "ISOLATE" ∷ [])

-- `for index, action in enumerate(actions, start=1): action.sequence = index`
unfoldable pub renumber : ℕ → List PlannedAction → List PlannedAction
renumber index [] = []
renumber index (a ∷ actions) = record a { sequence = index } ∷ renumber (index + 1) actions

abbrev pub severity_value : Severity → Text
severity_value Severity.info = codes "INFO"
severity_value Severity.high = codes "HIGH"
severity_value Severity.critical = codes "CRITICAL"

abbrev pub transition_value : TransitionKind → Text
transition_value TransitionKind.raised = codes "RAISED"
transition_value TransitionKind.escalated = codes "ESCALATED"
transition_value TransitionKind.sustained = codes "SUSTAINED"
transition_value TransitionKind.cleared = codes "CLEARED"

module _ (format_g : Json → Text) (settings : Settings) (mutation : MutationEnvelope) where
  abbrev pub or_inspection : List PlannedAction → List PlannedAction
  or_inspection [] = inspection format_g settings mutation
  or_inspection (a ∷ actions) = a ∷ actions

  -- `if mutation.degraded`
  unfoldable pub cautious : List PlannedAction → List PlannedAction
  cautious actions =
      if mutation.degraded then or_inspection (keep (λ a. not (is_forceful a)) actions) else actions

  -- `actions`, cut and numbered
  unfoldable pub planned_actions : List PlannedAction
  unfolding rules cautious renumber
  planned_actions = renumber 1 (
      take settings.max_commands
        (cautious (rules format_g settings mutation mutation.transition mutation.severity)))

  abbrev pub escalates : Bool
  escalates =
      is_critical mutation.severity
      || text_eq mutation.ontology_context.criticality (codes "SAFETY_CRITICAL")

  -- `StubInterceptor.plan`
  unfoldable pub stub_plan : Text → ℕ → Subscription → ActionPlan
  unfolding planned_actions escalation_chain
  stub_plan fresh_id elapsed subscription =
      let actions = planned_actions in
      record {
        plan_id = codes "plan_stub_" ++ take 16 fresh_id;
        event_id = mutation.event_id;
        asset_id = mutation.asset_id;
        tenant = subscription.tenant;
        model = codes "stub-interceptor";
        confidence = if mutation.degraded then 550000 else 860000;
        reasoning_summary = concat (
            sensor format_g settings mutation
            ∷ codes " on "
            ∷ mutation.asset_id
            ∷ codes " reported "
            ∷ observed_text format_g settings mutation
            ∷ codes " against a "
            ∷ threshold_text format_g settings mutation
            ∷ codes " limit ("
            ∷ transition_value mutation.transition
            ∷ codes ", "
            ∷ severity_value mutation.severity
            ∷ codes "); "
            ∷ decimal (length actions)
            ∷ codes " action(s) issued against "
            ∷ component format_g settings mutation
            ∷ codes "."
            ∷ []);
        commands = actions;
        escalation = record {
          required = escalates;
          notify =
              map (λ (op : Operator). op.operator_id)
                (take 3 (escalation_chain mutation.ontology_context));
          reason = if escalates then codes "Critical severity on a governed asset." else [];
          sla_seconds = if escalates then 900 else 0;
        };
        evidence =
            (codes "rule="
              ++ (if is_empty mutation.rule.rule_id then codes "n/a" else mutation.rule.rule_id))
            ∷ (codes "breach_count=" ++ decimal mutation.breach_count)
            ∷ (codes "snapshot_complete="
                ++ (if mutation.snapshot_complete then codes "True" else codes "False"))
            ∷ [];
        latency_ms = elapsed;
      }
